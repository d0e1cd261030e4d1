-- ===== src/Guards.antt =====
-- src/x402-guards.ts: the pure decision layer of x402. `Amount` and `Select` choose what to pay,
-- `Settlement` classifies what came back; the modules below them hold the proofs.
pub mod Amount
pub mod Select
pub mod Settlement
mod Tests
