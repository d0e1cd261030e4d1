-- ===== src/Lib.antt =====
-- The Vellar SDK: the decision logic of x402 payments, of the wallet client and of what they stand on.
--
-- An x402 payment answers an HTTP 402 challenge. The guards of the SDK choose one of the offered
-- options, a signer signs for it, and the facilitator's answer is classified as settled, not spent
-- or undecided. The MCP server's payer runs this in a loop of at most three attempts under a ledger
-- of session ceilings, one payment at a time under a mutex; its ceilings come from a configuration,
-- and pay-and-call searches a catalog for what to pay. The wallet client creates and reconnects a
-- smart account through a passkey kit and a backend, pays, mints agent keys and attaches policies.
-- The circuit breaker wraps the calls of the facilitator's backend.
--
-- Files, and the code that they model (paths from the repository's root):
--   Prelude   Boolean tests, equality as an interface, lists over the native numbers, results,
--             integers (for bigint) and decimal text
--   X402      src/x402-types.ts: challenges, options, errors
--   Http      the parts of a fetch Response that are read
--   Guards    src/x402-guards.ts: Amount is parseAmount; Select is selectRequirements (Select.Sound:
--             what is selected, Select.Complete: when); Settlement reads and classifies headers
--             (Settlement.Outcomes)
--   Payer     packages/mcp-x402-payer/src: Ledger is the ledger of ledger.ts and Mutex its mutex
--             (Mutex.Serial: the effect of calls under it, Mutex.Progress: that all of them settle);
--             Config is config.ts (Config.Assets and Config.Loaded: what it accepts); Wire is
--             protocol.ts and the World that a payment runs in; Attempt is a round of the loop of
--             payExclusively in payer.ts, Pay is the loop, payExclusively and quote; Pay.Loop and
--             Pay.Payment say how they end, Pay.Guarantees and Pay.Outcome what follows for a
--             caller, Pay.Concurrent is pay under the mutex; Search and PayAndCall are
--             pay-and-call.ts; Scheme is smart-account-scheme.ts (Scheme.Payload: what it signs),
--             Tripwire is signer.ts; Output is output.ts and src/log-level.ts (Censors, Silent, Seeds
--             and Emitted: what of a secret is emitted, Fenced: what is put in a fence)
--   Signer    src/x402-auth-entry.ts, src/x402-signer-capabilities.ts and src/x402-signer.ts
--   Client    src/x402-client.ts: Entries is about what it signs of a simulation, Paid about what a
--             fetch pays for
--   RequestAuth src/x402-request-auth.ts: Compare is timingSafeEqual, Canonical the string that is
--             signed, Verify what is accepted, Signed what follows for what was signed, Wrapped
--             createSignedFetch
--   Untrusted src/x402-untrusted.ts: the sanitiser and the fence (Marker and Unclosable: the texts
--             by which a fence ends, Fence: where a block ends, Line: metadata)
--   Budget    src/x402-budget-attributes.ts: rules, time windows and the tracker of spends
--   Wallet    src/client.ts and what it composes: Host is the world outside as functions of what was
--             done before, Connector is src/passkeykit-connector.ts, Payments
--             src/payments-client.ts, Agents src/agents-facade.ts, Policies src/policy-facade.ts,
--             Client createVellarWallet (Client.Pays: every end of a payment, Client.Safe: any
--             sequence of its operations)
--   Upto      contrib/issue-507-510-515/upto-settlement-receipt.ts: receipts under a ceiling (Receipts)
--             and the session budget (Budget; Overlap is its use by payments that overlap, Counts,
--             Held and Fits what it counts and lets in)
--   Cli       packages/cli/src/commands: decodeChallenge and selectRequirement (Cheapest), Pay is the
--             pay command (Spends: what it has signed)
--   Tx        Status is src/tx-status.ts; Bucket and Submit are src/tx-rpc.ts
--   Tokens    parseTokenAmount of src/payments.ts, formatTokenAmount and fetchBalancesBatch of
--             src/balances.ts; a text is the list of its characters' codes
--   Session   src/session.ts: what a method does before and after its await are two steps; Timer is
--             about any interleaving of them, Whole about calls that are awaited
--   Breaker   src/circuit-breaker.ts: the closure's variables are the record Breaker, and a run is
--             any interleaving of the synchronous parts of its methods
--
-- Conventions. A function that mutates takes its state and returns the new one; one that throws
-- returns a Result; error messages are left out, and an error class with several messages has a
-- constructor for each that a caller can tell apart. bigint is an integer, other numbers are
-- natural numbers. What the code awaits from outside (fetch, signers, the RPC, the passkey kit) is
-- a script of answers, a function of what was done before, or a parameter; so are base64, JSON and
-- XDR decoding, HMAC, the classes Cf and Pd of Unicode, and the tests of addresses and keys. The
-- loop of the payer recurs on the attempts that are left, so it has no fuel that could run out. The
-- polling of waitForTransaction has one unit of fuel for each poll, and more polls than there are
-- intervals in the timeout are enough.
--
-- Not modelled: the other files under contrib, website and scripts, which no package depends on;
-- the other commands of the CLI, which print what they are answered; the MCP server's tools and the
-- sentences that they answer with; the clients of HTTP endpoints, and the glue to other libraries
-- (src/client.ts composes the wallet client with the circuit breaker and the x402 client; the
-- models of these three are separate).
pub mod Prelude
pub mod Breaker
pub mod X402
pub mod Http
pub mod Guards
pub mod Payer
pub mod Signer
pub mod RequestAuth
pub mod Session
pub mod Upto
pub mod Tx
pub mod Untrusted
pub mod Wallet
pub mod Tokens
pub mod Budget
pub mod Cli
pub mod Client
