-- ===== src/Authority.antt =====
-- internal/authority: decisions, address lists, rules, sealing flags and their evaluation.
pub mod Decision
pub mod IpMatch
pub mod Rules
pub mod Sealing
pub mod Evaluate
