-- ===== src/Payer.antt =====
-- packages/mcp-x402-payer/src: the MCP server's payer. `Errors` is errors.ts, `Ledger` ledger.ts,
-- `Wire` protocol.ts and the world that a payment runs in, `Attempt` and `Pay` payer.ts.
pub mod Mutex
pub mod Errors
pub mod Ledger
pub mod Config
pub mod Wire
pub mod Attempt
pub mod Pay
pub mod Search
pub mod PayAndCall
pub mod Scheme
pub mod Tripwire
pub mod Output
mod Tests
