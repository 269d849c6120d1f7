-- ===== src/Agent.antt =====
-- The device's side of a command: what is kept of its output, and what runs on (`internal/server/spill.go`,
-- `internal/agent/jobs.go`).
pub mod Spill
pub mod Jobs
pub mod Gate
