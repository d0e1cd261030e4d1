-- ===== src/Upto.antt =====
-- contrib/issue-507-510-515/upto-settlement-receipt.ts: receipts of payments under a signed ceiling. The
-- decoding of a header (base64 and JSON) is a parameter.
pub mod Receipts
pub mod Budget
pub mod Overlap
pub mod Counts
pub mod Held
pub mod Fits
mod Tests
use vellar_sdk.Prelude.{
  ℕ, suc, ℤ, pos, negsuc, ◌-ℤ◌, lt_ℤ, Bool, true, false, not, String, Option, none, some, List, [],
  ◌∷◌, Result, ok, err, codes, all_digits, big_int, to_string, ◌==◌, string_eq, if◌then◌else◌,
  ◌>>=◌,
}
use vellar_sdk.Http.{Response}
use vellar_sdk.Guards.Settlement.{is_transaction_hash}

-- The reported amount: missing, a text, or a JSON number, which is a safe integer or another.
pub data ReportedAmount : Type 0 where
  no_amount other_number : ReportedAmount
  amount_text : String → ReportedAmount
  safe_integer : ℤ → ReportedAmount

-- `text` of `parseSettledAmount`.
abbrev pub amount_characters : ReportedAmount → Option (List ℕ)
amount_characters no_amount = none
amount_characters other_number = some []
amount_characters (amount_text t) = some (codes t)
amount_characters (safe_integer (pos n)) = some (to_string n)
amount_characters (safe_integer (negsuc n)) = some (b'-' ∷ to_string (suc n))

unfoldable pub parse_settled_amount : ReportedAmount → Option ℕ
parse_settled_amount raw = elim (amount_characters raw) [
  | none ↦ none
  | some text ↦ if all_digits text then some (big_int text) else none
]

pub data SettledAmountSource : Type 0 where
  facilitator ceiling_fallback ceiling_clamped : SettledAmountSource

pub record SettlementReceiptInput : Type 0 where
  pub authorized_ceiling : ℤ
  pub reported_settled_amount : ReportedAmount
  pub transaction : String
  pub payer : Option String
  pub asset : String
  pub network : String

pub record SettlementReceipt : Type 0 where
  pub authorized_ceiling : ℤ
  pub settled_amount : ℤ
  pub unused_ceiling : ℤ
  pub settled_below_ceiling : Bool
  pub source : SettledAmountSource
  pub transaction : String
  pub payer : Option String
  pub asset : String
  pub network : String

pub data ReceiptError : Type 0 where
  negative_ceiling : ReceiptError

-- The settled amount and its source.
unfoldable pub settled_of : ℤ → Option ℕ → ℤ × SettledAmountSource
settled_of ceiling none = (ceiling, ceiling_fallback)
settled_of ceiling (some reported) =
    if lt_ℤ ceiling (pos reported) then (ceiling, ceiling_clamped) else (pos reported, facilitator)

abbrev pub receipt_at : SettlementReceiptInput → ℤ × SettledAmountSource → SettlementReceipt
receipt_at input (settled, source) = record {
  authorized_ceiling = input.authorized_ceiling;
  settled_amount = settled;
  unused_ceiling = input.authorized_ceiling -ℤ settled;
  settled_below_ceiling = lt_ℤ settled input.authorized_ceiling;
  source = source;
  transaction = input.transaction;
  payer = input.payer;
  asset = input.asset;
  network = input.network;
}

unfoldable pub build_settlement_receipt :
    SettlementReceiptInput → Result ReceiptError SettlementReceipt
build_settlement_receipt input =
    let reported = parse_settled_amount input.reported_settled_amount in
    if lt_ℤ input.authorized_ceiling (pos 0)
    then err negative_ceiling
    else ok (receipt_at input (settled_of input.authorized_ceiling reported))

pub record FacilitatorSettleResult : Type 0 where
  pub success : Option Bool
  pub transaction : Option String
  pub payer : Option String
  pub amount : ReportedAmount

-- `a ?? b`.
abbrev pub or_else : Option String → Option String → Option String
or_else none b = b
or_else (some a) b = some a

-- `decodeSettleResult`, where `parse` decodes a header and is none where that throws or gives null.
unfoldable pub decode_settle_result :
    (String → Option FacilitatorSettleResult) → Response → Option FacilitatorSettleResult
decode_settle_result parse res =
    let header =
      or_else (res.header "X-PAYMENT-RESPONSE")
        (or_else (res.header "PAYMENT-RESPONSE") (res.header "x-payment-response")) in
    elim header [ none ↦ none | some text ↦ if text == "" then none else parse text ]

pub record ReceiptContext : Type 0 where
  pub authorized_ceiling : ℤ
  pub asset : String
  pub network : String

abbrev pub hash_of : FacilitatorSettleResult → String
hash_of settle = elim settle.transaction [ none ↦ "" | some tx ↦ tx ]

-- `settle.success === false`.
abbrev pub is_unsuccessful : FacilitatorSettleResult → Bool
is_unsuccessful settle = elim settle.success [ none ↦ false | some b ↦ not b ]

abbrev pub input_of : FacilitatorSettleResult → ReceiptContext → SettlementReceiptInput
input_of settle context = record {
  authorized_ceiling = context.authorized_ceiling;
  reported_settled_amount = settle.amount;
  transaction = hash_of settle;
  payer = settle.payer;
  asset = context.asset;
  network = context.network;
}

-- From the result that was decoded.
unfoldable pub receipt_of :
    FacilitatorSettleResult → ReceiptContext → Result ReceiptError (Option SettlementReceipt)
receipt_of settle context =
    if not (is_transaction_hash (hash_of settle))
    then ok none
    else if is_unsuccessful settle
    then ok none
    else (build_settlement_receipt (input_of settle context) >>= λ receipt. ok (some receipt))

unfoldable pub settlement_receipt_from_response :
    (String → Option FacilitatorSettleResult)
    → Response
    → ReceiptContext
    → Result ReceiptError (Option SettlementReceipt)
settlement_receipt_from_response parse res context = elim (decode_settle_result parse res) [
  | none ↦ ok none
  | some settle ↦ receipt_of settle context
]

pub data SpendOutcome : Type 0 where
  settled : SettlementReceipt → SpendOutcome
  indeterminate not_spent : (reason : String) → SpendOutcome

pub data DebitBasis : Type 0 where
  by_settlement by_ceiling by_nothing : DebitBasis

unfoldable pub resolve_spend_debit : SpendOutcome → ℤ → ℤ × DebitBasis
resolve_spend_debit (settled receipt) ceiling = (receipt.settled_amount, by_settlement)
resolve_spend_debit (indeterminate reason) ceiling = (ceiling, by_ceiling)
resolve_spend_debit (not_spent reason) ceiling = (pos 0, by_nothing)
