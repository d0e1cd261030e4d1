-- ===== src/Client.antt =====
-- src/x402-client.ts: the x402 client. The simulation by the RPC, the signer, the printing of a
-- payment and the fetch are parameters; what the simulation returns is not trusted. The record of a
-- spend after an accepted payment is `spend` of the module Budget.
pub mod Entries
pub mod Paid
mod Tests
use vellar_sdk.Prelude.{
  ℤ, ℕ, zero, suc, ◌+◌, ◌-◌, ◌/◌, min, max, pos, lt_ℤ, String, Bool, true, false, not, ◌||◌, ◌&&◌,
  Option, none, some, List, [], ◌∷◌, Result, ok, err, ◌>>=◌, ◌>>◌, throw_if, leb, ◌==◌, nat_eq,
  string_eq, if◌then◌else◌,
}
use vellar_sdk.Http.{Response}
use vellar_sdk.X402.{
  PaymentRequirements, PaymentRequired, X402PayOptions, X402Error, disallowed_asset,
  max_amount_exceeded, payment_rejected,
}
use vellar_sdk.Guards.Amount.{parse_amount}
use vellar_sdk.Guards.Select.{is_allowed, select_requirements}
use vellar_sdk.Guards.Settlement.{
  SettleResult, decode_payment_required, extract_rejection_reason, decode_settlement_header,
}
use vellar_sdk.Signer.Entry.{Entry, address_credentials, other_credentials}
use vellar_sdk.Signer.AuthEntry.{ExpectedInvocation, Mismatch, assert_auth_entry_invocation}
use vellar_sdk.Signer.Sign.{SignError}
use vellar_sdk.Budget.{BudgetDenied}
use vellar_sdk.Payer.Attempt.{is_rejected}

-- `EXPIRATION_SAFETY_MARGIN`, `MIN_EXPIRATION_LEDGERS` and `DEFAULT_MAX_EXPIRATION_LEDGERS`.
abbrev pub safety_margin : ℕ
safety_margin = 2

abbrev pub min_expiration_ledgers : ℕ
min_expiration_ledgers = 3

abbrev pub default_max_expiration_ledgers : ℕ
default_max_expiration_ledgers = 58

-- `Math.ceil((maxTimeoutSeconds ?? 120) / 5)`.
abbrev pub window_ledgers : Option ℕ → ℕ
window_ledgers none = 24
window_ledgers (some seconds) = (seconds + 4) / 5

abbrev pub ceiling_or_default : Option ℕ → ℕ
ceiling_or_default none = default_max_expiration_ledgers
ceiling_or_default (some ceiling) = ceiling

-- A difference below 0 is raised to the least offset in the end, as 0 is.
unfoldable pub expiration_offset_for : Option ℕ → Option ℕ → ℕ
expiration_offset_for max_timeout_seconds ceiling =
    max (min (window_ledgers max_timeout_seconds - safety_margin) (ceiling_or_default ceiling))
      min_expiration_ledgers

pub data ClientError : Type 0 where
  entry_mismatch : Mismatch → ClientError
  sign_failed : SignError → ClientError
  over_budget : BudgetDenied → ClientError
  guard_refused : X402Error → ClientError
  no_wallet_entry simulation_failed fetch_failed : ClientError

abbrev pub from_guards : {A : Type 0} → Result X402Error A → Result ClientError A
from_guards r = elim r [ err e ↦ err (guard_refused e) | ok a ↦ ok a ]

abbrev assets_of : Option (List String) → List String
assets_of none = []
assets_of (some assets) = assets

-- What the client uses from outside.
pub record Services (V : Type 0) : Type 0 where
  pub address : String
  pub caip2 : String
  pub address_of : V → Option String
  pub number_of : V → Option ℤ
  -- the simulation's auth entries, the latest ledger, and the check of the budgets
  pub simulate : PaymentRequirements → Option (List (Entry V))
  pub latest_ledger : ℕ
  pub expiration_ceiling : Option ℕ
  pub budget : PaymentRequirements → Result BudgetDenied (Unit {0})
  -- the signer, given an expiration ledger, and the header for the signed entries
  pub sign : ℕ → Entry V → Result SignError (Entry V)
  pub header_for : PaymentRequirements → List (Entry V) → String
  pub challenge : String → Option PaymentRequired
  pub rejection : String → Option (Option String)
  pub settle : String → Option SettleResult
  -- a request, with the payment's header or none; `none` is a rejected promise
  pub send : Option String → Option Response

module _ {V : Type 0} (s : Services V) where
  -- The entry has address credentials of the signer's wallet.
  abbrev pub is_own : Entry V → Bool
  is_own entry = elim entry.credentials [
    | other_credentials name ↦ false
    | address_credentials address expiration signature ↦ address == s.address
  ]

  abbrev pub check_entry : ExpectedInvocation → Entry V → Result ClientError (Unit {0})
  check_entry expected entry =
      elim (assert_auth_entry_invocation s.address_of s.number_of entry expected) [
        | err e ↦ err (entry_mismatch e)
        | ok u ↦ ok u
      ]

  abbrev pub sign_one : ℕ → Entry V → Result ClientError (Entry V)
  sign_one expiration entry = elim (s.sign expiration entry) [
    | err e ↦ err (sign_failed e)
    | ok signed ↦ ok signed
  ]

  -- The `for` loop: the entries afterwards, and `signed`.
  unfoldable pub sign_entries :
      ExpectedInvocation → ℕ → List (Entry V) → Result ClientError (List (Entry V) × ℕ)
  sign_entries expected expiration [] = ok ([], 0)
  sign_entries expected expiration (entry ∷ entries) =
      let rest = sign_entries expected expiration entries in
      if is_own entry
      then (do
        check_entry expected entry
        signed ← sign_one expiration entry
        rest >>= λ (r : List (Entry V) × ℕ). ok (signed ∷ r.0, suc r.1))
      else (rest >>= λ (r : List (Entry V) × ℕ). ok (entry ∷ r.0, r.1))

  -- The loop and the test after it.
  unfoldable pub sign_auth :
      ExpectedInvocation → ℕ → List (Entry V) → Result ClientError (List (Entry V))
  sign_auth expected expiration auth =
      sign_entries expected expiration auth >>= λ (r : List (Entry V) × ℕ).
      if r.1 == 0 then err no_wallet_entry else ok r.0

  abbrev pub expected_for : PaymentRequirements → ℕ → ExpectedInvocation
  expected_for requirements amount = record {
    contract = requirements.asset;
    function_name = "transfer";
    from = s.address;
    to = requirements.pay_to;
    amount = pos amount;
  }

  abbrev pub check_budget : PaymentRequirements → Result ClientError (Unit {0})
  check_budget requirements = elim (s.budget requirements) [
    | err e ↦ err (over_budget e)
    | ok u ↦ ok u
  ]

  abbrev pub simulated : PaymentRequirements → Result ClientError (List (Entry V))
  simulated requirements = elim (s.simulate requirements) [
    | none ↦ err simulation_failed
    | some auth ↦ ok auth
  ]

  abbrev pub expiration_ledger : PaymentRequirements → ℕ
  expiration_ledger requirements =
      s.latest_ledger + expiration_offset_for requirements.max_timeout_seconds s.expiration_ceiling

  unfoldable pub build_at : PaymentRequirements → ℕ → Result ClientError (String × ℕ)
  build_at requirements amount = do
    check_budget requirements
    auth ← simulated requirements
    signed ← sign_auth (expected_for requirements amount) (expiration_ledger requirements) auth
    ok (s.header_for requirements signed, amount)

  -- The header and the amount. `budgetRequestFor` parses the amount before the budgets are checked.
  unfoldable pub build_signed_payment : PaymentRequirements → Result ClientError (String × ℕ)
  build_signed_payment requirements =
      from_guards (parse_amount requirements.amount) >>= λ amount. build_at requirements amount

  -- `createPayment`.
  unfoldable pub create_payment :
      PaymentRequirements → X402PayOptions → Result ClientError (String × ℕ)
  create_payment requirements opts = do
    throw_if (not (is_allowed opts.allowed_assets requirements))
        (guard_refused (disallowed_asset requirements.asset (assets_of opts.allowed_assets)))
    required ← from_guards (parse_amount requirements.amount)
    throw_if (lt_ℤ opts.max_amount (pos required))
        (guard_refused (max_amount_exceeded required opts.max_amount requirements.asset))
    build_signed_payment requirements

pub record X402Settlement : Type 0 where
  pub transaction : String
  pub payer : String
  pub asset : String
  pub amount : ℕ

pub record X402Response : Type 0 where
  pub response : Response
  pub paid : Bool
  pub settlement : Option X402Settlement

-- `readSettlement`: where the header names no payer, the recipient is given as the payer.
unfoldable pub read_settlement :
    (String → Option SettleResult) → Response → PaymentRequirements → ℕ → Option X402Settlement
read_settlement settle res requirements amount = elim (decode_settlement_header settle res) [
  | none ↦ none
  | some (transaction, payer) ↦ some (record {
    transaction = transaction;
    payer = elim payer [ none ↦ requirements.pay_to | some p ↦ p ];
    asset = requirements.asset;
    amount = amount;
  })
]

module _ {V : Type 0} (s : Services V) where
  abbrev pub sent : Option String → Result ClientError Response
  sent header = elim (s.send header) [ none ↦ err fetch_failed | some res ↦ ok res ]

  -- The paid request, and what follows it.
  unfoldable pub pay_with : PaymentRequirements → String × ℕ → Result ClientError X402Response
  pay_with requirements (header, amount) = do
    res ← sent (some header)
    throw_if (is_rejected res)
        (guard_refused (payment_rejected (extract_rejection_reason s.rejection res)))
    ok (record {
      response = res;
      paid = true;
      settlement = read_settlement s.settle res requirements amount;
    })

  unfoldable pub answer_challenge : X402PayOptions → Response → Result ClientError X402Response
  answer_challenge opts first = do
    decoded ← from_guards (decode_payment_required s.challenge first)
    requirements ← from_guards (select_requirements decoded opts s.caip2)
    payment ← build_signed_payment s requirements
    pay_with requirements payment

  -- `x402Fetch`, without the body and the headers of the caller.
  unfoldable pub x402_fetch : X402PayOptions → Result ClientError X402Response
  x402_fetch opts = do
    first ← sent none
    if not (first.status == 402)
        then ok (record { response = first; paid = false; settlement = none })
        else answer_challenge opts first
