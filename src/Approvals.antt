-- ===== src/Approvals.antt =====
-- internal/agent/approvals.go: late approvals and the phone that sends decisions.
pub mod LateGrants
pub mod Outbox
