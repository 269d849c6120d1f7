-- ===== src/Examples.antt =====
-- The theorems at concrete inputs, one file for each part of the program.
pub mod Relay
pub mod Approvals
pub mod Policy
pub mod Script
pub mod Trust
pub mod Session
pub mod Termsafe
pub mod Release
pub mod Lark
pub mod Adb
pub mod Agent
pub mod Gate
pub mod Held
pub mod Events
