-- ===== src/Lark.antt =====
-- internal/lark: approvals that are given on a chat card.
pub mod Grants
