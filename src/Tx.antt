-- ===== src/Tx.antt =====
-- src/tx-status.ts and src/tx-rpc.ts: waiting for a transaction, and submitting one under a rate limit.
pub mod Status
pub mod Bucket
pub mod Submit
mod Tests
