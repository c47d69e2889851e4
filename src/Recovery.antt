-- ===== src/Recovery.antt =====
-- crates/resonance-agent/src/recovery.rs, in two parts: its types, which the retry state uses, and
-- the policy evaluation, which uses the retry state. The other children prove what the policy does.
pub mod Types
pub mod Policy
pub mod Configured
pub mod Guards
pub mod Causes
pub mod Allowed
pub mod Disabled
pub mod Budget
mod Scenarios
