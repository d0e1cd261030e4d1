-- ===== src/Signer.antt =====
-- src/x402-signer.ts, src/x402-signer-capabilities.ts and src/x402-auth-entry.ts: what an x402 signer
-- signs. `Entry` is the authorization entry, `AuthEntry` the check of its invocation, `Capability`
-- the rules, and `Sign` the two signers.
pub mod Entry
pub mod AuthEntry
pub mod Capability
pub mod Sign
mod Tests
