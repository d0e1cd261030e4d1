-- ===== src/Upto/Tests.antt =====
-- contrib/issue-507-510-515/upto-settlement-receipt.ts: a ceiling of 50000 of which 10000 settle.
use vellar_sdk.Prelude.{
  ◌+◌, ℤ, All, pos, negsuc, ◌+ℤ◌, ◌≤ℤ◌, String, true, Option, none, some, List, [], ◌∷◌, ok, ◌≡◌,
  ◌↔◌, ◌⊎◌, refl, ◌==◌, string_eq, if◌then◌else◌, arith, to_string,
}
use vellar_sdk.Http.{Response}
use vellar_sdk.Payer.Ledger.{Amounts, get, put}
use vellar_sdk.Upto.{
  amount_text, safe_integer, parse_settled_amount, FacilitatorSettleResult, ReceiptContext,
  SettlementReceipt, settlement_receipt_from_response, input_of,
}
use vellar_sdk.Upto.Receipts.{IsReceipt, Settles, receipt_from_response-IsReceipt}
use vellar_sdk.Upto.Budget.{
  SessionBudget, create_session_budget, amount_in, reserve, budget_ceiling_for,
}
use vellar_sdk.Upto.Overlap.{
  Op, started, confirmed, cancelled, run_ops, open_session, IsPayment, held, IsHeld,
}
use vellar_sdk.Upto.Held.{budget-IsHeld}
use vellar_sdk.Upto.Fits.{reserve-fits_iff}

abbrev hash : String
hash = "0123456789abcdef0123456789abcdef0123456789abcdef0123456789abcdef"

abbrev settled_result : FacilitatorSettleResult
settled_result = record {
  success = some true;
  transaction = some hash;
  payer = some "GPAYER";
  amount = amount_text "10000";
}

abbrev parse : String → Option FacilitatorSettleResult
parse text = if text == "settled" then some settled_result else none

abbrev response : Response
response = record {
  status = 200;
  header = λ name. if name == "PAYMENT-RESPONSE" then some "settled" else none;
  body = none;
}

abbrev context : ReceiptContext
context = record { authorized_ceiling = pos 50000; asset = "CUSDC"; network = "stellar:testnet" }

drops_exponent : parse_settled_amount (amount_text "1e5") ≡ none
unfolding parse_settled_amount
drops_exponent = refl

drops_negative : parse_settled_amount (safe_integer (negsuc 4)) ≡ none
unfolding parse_settled_amount to_string
drops_negative = refl

receipt_from_response-IsReceipt_example :
    ((settle : FacilitatorSettleResult) × Settles parse response settle
      × ((r : SettlementReceipt) × (settlement_receipt_from_response parse response context
            ≡ ok (some r))
          × IsReceipt 50000 (input_of settle context) r))
    ⊎ (((settle : FacilitatorSettleResult) → ¬ Settles parse response settle)
        × (settlement_receipt_from_response parse response context ≡ ok none))
receipt_from_response-IsReceipt_example =
    receipt_from_response-IsReceipt parse response context 50000 refl

abbrev ceilings : Amounts
ceilings = ("CUSDC", pos 100000) ∷ []

-- Two payments overlap; the first settles for less than its ceiling, and a third is cancelled.
abbrev ops : List Op
ops =
    started "CUSDC" (pos 50000)
    ∷ started "CUSDC" (pos 40000)
    ∷ confirmed 1 (amount_text "10000")
    ∷ started "CUSDC" (pos 50000)
    ∷ cancelled 0
    ∷ []

ceilings-nonneg : (k : String) (c : ℤ) → get k ceilings ≡ some c → pos 0 ≤ℤ c
unfolding get
ceilings-nonneg k c e = ground arith

ops-nonneg : All IsPayment ops
ops-nonneg = (omega arith, (omega arith, (tt, (omega arith, (tt, tt)))))

budget-IsHeld_example : IsHeld ceilings (run_ops ops (open_session ceilings))
budget-IsHeld_example = budget-IsHeld ceilings ops ops-nonneg ceilings-nonneg

reserve-fits_iff_example :
    ((b : SessionBudget) × (reserve (run_ops ops (open_session ceilings)).budget "CUSDC" (pos 60000)
        ≡ ok b))
    ↔ ((c : ℤ) × (get "CUSDC" ceilings ≡ some c)
        × (pos (
              held "CUSDC" (run_ops ops (open_session ceilings)).settled
              + held "CUSDC" (run_ops ops (open_session ceilings)).in_flight
              + 60000)
            ≤ℤ c))
reserve-fits_iff_example = reserve-fits_iff ceilings ops "CUSDC" 60000 ops-nonneg ceilings-nonneg

-- A negative ceiling is reserved, and the asset has more left than its ceiling.
negative_reservation :
    reserve (create_session_budget ceilings) "CUSDC" (negsuc 99999)
    ≡ ok (record (create_session_budget ceilings) {
      reserved = ("CUSDC", negsuc 99999) ∷ [];
      notified = ("CUSDC", negsuc 99999) ∷ [];
    })
unfolding reserve budget_ceiling_for amount_in get put ◌+ℤ◌
negative_reservation = refl
