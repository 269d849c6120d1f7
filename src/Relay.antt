-- ===== src/Relay.antt =====
-- The relay's byte store behind the HTTP tunnel (`internal/relay`).
pub mod AgentEvents
pub mod Residency
pub mod SideQueue
