-- ===== src/Validation.antt =====
-- internal/validation: the rules for a guest's identity, network and egress.
pub mod Checks
pub mod Rules
pub mod Aggregate
pub mod Egress
pub mod Conditions
pub mod Digits
pub mod Identity
pub mod Drift
