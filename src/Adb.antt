-- ===== src/Adb.antt =====
-- internal/adb: the Android Debug Bridge protocol, spoken to the device's own daemon.
pub mod Wire
