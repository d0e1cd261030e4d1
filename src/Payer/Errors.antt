-- ===== src/Payer/Errors.antt =====
-- packages/mcp-x402-payer/src/errors.ts: what the payer can throw. Messages are left out.
use vellar_sdk.Prelude.{ℕ, ℤ, String, Option}
use vellar_sdk.X402.{X402Error}
use vellar_sdk.Guards.Settlement.{Indeterminacy}

-- `lastReason`: from a rejected response (`settle?.errorReason`, or the attempt's number), or from
-- an accepted one that was not spent.
pub data LastReason : Type 0 where
  rejected_unspent : (error_reason : Option String) → (attempt : ℕ) → LastReason
  accepted_unspent : (attempt : ℕ) → (error_reason : Option String) → LastReason

pub data PayerError : Type 0 where
  -- thrown by the guards of the SDK
  guard_error : X402Error → PayerError
  session_ceiling_exceeded : (asset : String) → (attempted spent ceiling : ℤ) → PayerError
  settlement_failed : (attempts : ℕ) → Option LastReason → PayerError
  indeterminate_settlement :
      Indeterminacy → (asset : String) → (amount : ℕ) → (raw : Option String) → PayerError
  -- the injected `fetch`, the signer or the reading of a body rejected
  fetch_failed sign_failed body_unreadable : PayerError
  -- protocol.ts: "The 402 challenge did not decode to an object."
  not_an_object : PayerError
