-- ===== src/Guards/Settlement.antt =====
-- src/x402-guards.ts: reading the 402 challenge, and what a paid response says of the money.
-- `JSON.parse(base64ToUtf8(header))` is a parameter for each type that it is cast to: `none` where
-- it throws or gives `null`.
pub mod Outcomes
use vellar_sdk.Prelude.{
  ℕ, String, Bool, true, false, not, ◌&&◌, ◌||◌, Option, none, some, List, Result, ok, err, every,
  length, leb, codes, is_truthy, is_digit, ◌==◌, nat_eq, string_eq, if◌then◌else◌,
}
use vellar_sdk.X402.{
  PaymentRequired, X402Error, no_usable_payment_option, malformed_header, no_header,
}
use vellar_sdk.Http.{Response}

-- `a ?? b`.
abbrev pub coalesce {ℓ} : {A : Type ℓ} → Option A → Option A → Option A
coalesce none b = b
coalesce (some a) b = some a

abbrev pub challenge_header : Response → Option String
challenge_header res = coalesce (res.header "PAYMENT-REQUIRED") (res.header "payment-required")

abbrev pub settle_header : Response → Option String
settle_header res =
    coalesce (coalesce (res.header "X-PAYMENT-RESPONSE") (res.header "PAYMENT-RESPONSE"))
      (res.header "x-payment-response")

-- `if (header)`: the header's text where it is there and not empty.
abbrev pub truthy_text : Option String → Option String
truthy_text none = none
truthy_text (some s) = if s == "" then none else some s

unfoldable pub decode_payment_required :
    {A : Type 0} → (String → Option A) → Response → Result X402Error A
decode_payment_required parse res = elim (truthy_text (challenge_header res)) [
  | none ↦ err (no_usable_payment_option no_header)
  | some header ↦ elim (parse header) [
    | none ↦ err (no_usable_payment_option malformed_header)
    | some decoded ↦ ok decoded
  ]
]

-- `parse` gives the `error` field of the decoded object.
unfoldable pub extract_rejection_reason :
    (String → Option (Option String)) → Response → Option String
extract_rejection_reason parse res = elim (truthy_text (challenge_header res)) [
  | none ↦ none
  | some header ↦ elim (parse header) [ none ↦ none | some reason ↦ reason ]
]

pub record SettleResult : Type 0 where
  pub success : Option Bool
  pub transaction : Option String
  pub payer : Option String
  pub error_reason : Option String

unfoldable pub decode_settle_response_header :
    (String → Option SettleResult) → Response → Option SettleResult
decode_settle_response_header parse res = elim (truthy_text (settle_header res)) [
  | none ↦ none
  | some header ↦ parse header
]

-- `settle.success === false`.
abbrev pub reports_failure : SettleResult → Bool
reports_failure settle = elim settle.success [ none ↦ false | some s ↦ not s ]

unfoldable pub is_retryable_settle_failure : Option SettleResult → Bool
is_retryable_settle_failure none = false
is_retryable_settle_failure (some settle) =
    reports_failure settle && not (is_truthy settle.transaction)

abbrev pub is_hex : ℕ → Bool
is_hex c = is_digit c || leb b'a' c && leb c b'f' || leb b'A' c && leb c b'F'

-- `TRANSACTION_HASH.test(tx)`.
unfoldable pub is_transaction_hash : String → Bool
is_transaction_hash tx = length (codes tx) == 64 && every is_hex (codes tx)

pub data Indeterminacy : Type 0 where
  no_settle_information no_hash malformed_hash failed_after_submission : Indeterminacy

pub data SettlementOutcome : Type 0 where
  settled : (transaction : String) → (payer : Option String) → SettlementOutcome
  not_spent : (error_reason : Option String) → SettlementOutcome
  indeterminate : Indeterminacy → (raw : Option String) → SettlementOutcome

abbrev pub transaction_of : SettleResult → String
transaction_of settle = elim settle.transaction [ none ↦ "" | some tx ↦ tx ]

-- The function from its second `if` on.
unfoldable pub classify_settle_result : SettleResult → SettlementOutcome
classify_settle_result settle =
    let tx = transaction_of settle in
    if reports_failure settle && not (is_truthy settle.transaction)
    then not_spent settle.error_reason
    else if not (is_transaction_hash tx)
    then (if tx == "" then indeterminate no_hash none else indeterminate malformed_hash (some tx))
    else if reports_failure settle
    then indeterminate failed_after_submission (some tx)
    else settled tx settle.payer

unfoldable pub classify_settlement : (String → Option SettleResult) → Response → SettlementOutcome
classify_settlement parse res = elim (decode_settle_response_header parse res) [
  | none ↦ indeterminate no_settle_information none
  | some settle ↦ classify_settle_result settle
]

unfoldable pub decode_settlement_header :
    (String → Option SettleResult) → Response → Option (String × Option String)
decode_settlement_header parse res = elim (decode_settle_response_header parse res) [
  | none ↦ none
  | some settle ↦
      if is_truthy settle.transaction then some (transaction_of settle, settle.payer) else none
]
