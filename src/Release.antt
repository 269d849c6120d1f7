-- ===== src/Release.antt =====
-- internal/release/release.go: signed release manifests and the choice of an update.
pub mod Version
pub mod Json
pub mod Manifest
pub mod Select
