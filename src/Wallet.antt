-- ===== src/Wallet.antt =====
-- src/client.ts and what it composes: `Host` is the world of a wallet client and the async functions
-- over it, `Connector` passkeykit-connector.ts, `Payments` payments-client.ts, `Agents`
-- agents-facade.ts, `Policies` policy-facade.ts and `Client` client.ts.
pub mod Host
pub mod Connector
pub mod Payments
pub mod Agents
pub mod Policies
pub mod Client
mod Tests
