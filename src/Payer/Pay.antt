-- ===== src/Payer/Pay.antt =====
-- packages/mcp-x402-payer/src/payer.ts: `quote` and `payExclusively`. The loop over the attempts
-- recurs on the attempts that are left; its count is MAX_ATTEMPTS, so no fuel can run out.
pub mod Loop
pub mod Payment
pub mod Guarantees
pub mod Outcome
pub mod Concurrent
use vellar_sdk.Prelude.{
  ℕ, zero, suc, ◌+◌, ◌-◌, ◌^◌, ℤ, pos, le_ℤ, String, Bool, true, false, not, Option, none, some,
  List, [], ◌∷◌, Result, ok, err, ◌==◌, nat_eq, if◌then◌else◌,
}
use vellar_sdk.Http.{Response}
use vellar_sdk.X402.{str, PaymentRequirements, PaymentRequired, X402PayOptions, X402Error}
use vellar_sdk.Guards.Amount.{parse_amount}
use vellar_sdk.Guards.Select.{options_of, select_requirements}
use vellar_sdk.Guards.Settlement.{decode_payment_required}
use vellar_sdk.Payer.Errors.{LastReason, PayerError, guard_error, settlement_failed}
use vellar_sdk.Payer.Ledger.{SpendLedger, remaining_for}
use vellar_sdk.Payer.Wire.{
  assert_v2_challenge, narrow_to, Decoded, Codecs, Paying, ◌>>=◌, ◌>>◌, lift, fetch, check,
  read_content,
}
use vellar_sdk.Payer.Attempt.{PayResult, again, finished, attempt_once}

-- The fields of the configuration, and the signer's address.
pub record PayerConfig : Type 0 where
  pub caip2 : String
  pub allowed_assets : List String
  pub signer_address : String

abbrev pub max_attempts : ℕ
max_attempts = 3

-- `2n ** 127n - 1n`.
abbrev pub no_price_limit : ℤ
no_price_limit = pos (2 ^ 127 - 1)

-- An error of the guards, thrown by the payer.
abbrev pub from_guards : {A : Type 0} → Result X402Error A → Result PayerError A
from_guards (ok a) = ok a
from_guards (err e) = err (guard_error e)

module _ (parse : Codecs) (config : PayerConfig) where
  abbrev pub pay_options : ℤ → X402PayOptions
  pay_options max_amount = record {
    max_amount = max_amount;
    allowed_assets = some config.allowed_assets;
  }

  -- `clearOneOption`. The guards' view of the challenge has the same fields in the model, and the
  -- option that the source finds again by its index is the selected one.
  unfoldable pub clear_one_option :
      PaymentRequired → ℤ → Result PayerError (PaymentRequirements × ℕ)
  clear_one_option challenge max_amount =
      elim (select_requirements challenge (pay_options max_amount) config.caip2) [
        | err e ↦ err (guard_error e)
        | ok chosen ↦ elim (parse_amount chosen.amount) [
          | err e ↦ err (guard_error e)
          | ok amount ↦ ok (chosen, amount)
        ]
      ]

  -- The `for` loop, with `left` attempts to go.
  unfoldable pub attempts_from :
      PaymentRequirements → ℕ → PaymentRequired → ℕ → ℕ → Option LastReason → Paying PayResult
  attempts_from chosen amount narrowed zero attempt last =
      lift (err (settlement_failed max_attempts last))
  attempts_from chosen amount narrowed (suc left) attempt last = do
    round ← attempt_once parse chosen amount narrowed config.signer_address attempt
    elim round [
      | again reason ↦ attempts_from chosen amount narrowed left (attempt + 1) (some reason)
      | finished result ↦ lift (ok result)
    ]

  -- From the cleared option on.
  unfoldable pub pay_cleared : PaymentRequired → PaymentRequirements × ℕ → Paying PayResult
  pay_cleared challenge (chosen, amount) = do
    check chosen.asset amount
    attempts_from chosen amount (narrow_to challenge chosen) max_attempts 1 none

  -- `assertV2Challenge(decodePaymentRequired(res))`.
  unfoldable pub challenge_of : Response → Result PayerError PaymentRequired
  challenge_of res = elim (decode_payment_required parse.challenge res) [
    | err e ↦ err (guard_error e)
    | ok decoded ↦ assert_v2_challenge decoded
  ]

  unfoldable pub after_first : ℕ → Response → Paying PayResult
  after_first ceiling first =
      if not (first.status == 402)
      then (do
        content ← lift (read_content first)
        lift (
            ok (record {
              paid = false;
              content = content;
              settlement = none;
              attempts = none;
              session_remaining = none;
              status = first.status;
            })))
      else (do
        challenge ← lift (challenge_of first)
        cleared ← lift (clear_one_option challenge (pos ceiling))
        pay_cleared challenge cleared)

  unfoldable pub pay_exclusively : String → Paying PayResult
  pay_exclusively max_amount = do
    ceiling ← lift (from_guards (parse_amount (str max_amount)))
    first ← fetch
    after_first ceiling first

-- Why a quote is not payable: an error that the guards or the ledger threw, or the price.
pub data QuoteRefusal : Type 0 where
  threw : PayerError → QuoteRefusal
  over_remaining : (price : ℕ) → (remaining : ℤ) → QuoteRefusal

pub record QuoteResult : Type 0 where
  pub requires_payment : Bool
  pub offered : List PaymentRequirements
  pub selected : Option PaymentRequirements
  pub payable : Bool
  pub refusal : Option QuoteRefusal
  pub session_remaining : Option ℤ
  pub status : ℕ

module _ (parse : Codecs) (config : PayerConfig) where
  -- The `try` block: what it returns for a cleared option.
  unfoldable pub quote_cleared :
      SpendLedger
      → ℕ
      → List PaymentRequirements
      → PaymentRequirements × ℕ
      → Result PayerError QuoteResult
  quote_cleared ledger status offered (chosen, amount) = elim (remaining_for ledger chosen.asset) [
    | err e ↦ err e
    | ok remaining ↦ ok (record {
      requires_payment = true;
      offered = offered;
      selected = some chosen;
      payable = le_ℤ (pos amount) remaining;
      refusal =
          if le_ℤ (pos amount) remaining then none else some (over_remaining amount remaining);
      session_remaining = some remaining;
      status = status;
    })
  ]

  abbrev pub refused_quote : ℕ → List PaymentRequirements → PayerError → QuoteResult
  refused_quote status offered e = record {
    requires_payment = true;
    offered = offered;
    selected = none;
    payable = false;
    refusal = some (threw e);
    session_remaining = none;
    status = status;
  }

  unfoldable pub quote_challenge : SpendLedger → ℕ → PaymentRequired → QuoteResult
  quote_challenge ledger status challenge =
      let offered = options_of challenge in
      elim (clear_one_option parse config challenge no_price_limit) [
        | err e ↦ refused_quote status offered e
        | ok cleared ↦ elim (quote_cleared ledger status offered cleared) [
          | err e ↦ refused_quote status offered e
          | ok quoted ↦ quoted
        ]
      ]

  abbrev pub free_quote : ℕ → QuoteResult
  free_quote status = record {
    requires_payment = false;
    offered = [];
    selected = none;
    payable = true;
    refusal = none;
    session_remaining = none;
    status = status;
  }

  unfoldable pub quote : Paying QuoteResult
  quote = do
    res ← fetch
    if not (res.status == 402) then lift (ok (free_quote res.status)) else (do
      challenge ← lift (challenge_of parse config res)
      λ w. (ok (quote_challenge w.ledger res.status challenge), w))
