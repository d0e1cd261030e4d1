-- ===== src/Upto/Receipts.antt =====
-- contrib/issue-507-510-515/upto-settlement-receipt.ts: when there is a receipt, and what it says.
use vellar_sdk.Prelude.{
  ℕ, ℤ, pos, ◌-ℤ◌, ◌≤◌, ◌<◌, ◌-◌, lt_ℤ, true, false, String, Option, none, some, ok, ◌≡◌, ◌↔◌, ◌⊎◌,
  refl, sym, ap, ◌∙◌, inl, inr, arith, Bool-cases, Option-cases,
}
use mathlib.Core.Path.{subst}
use vellar_sdk.Http.{Response}
use vellar_sdk.Guards.Settlement.{is_transaction_hash}
use vellar_sdk.Upto.{
  parse_settled_amount, SettledAmountSource, facilitator, ceiling_fallback, ceiling_clamped,
  SettlementReceiptInput, SettlementReceipt, settled_of, build_settlement_receipt,
  FacilitatorSettleResult, decode_settle_result, ReceiptContext, hash_of, is_unsuccessful, input_of,
  receipt_of, receipt_at, settlement_receipt_from_response,
}

-- What is charged under a ceiling for a reported amount: the amount if it is well formed and within the
-- ceiling, and otherwise the ceiling; and where the figure is from.
pub data IsCharged (ceiling : ℕ) : Option ℕ → ℕ → SettledAmountSource → Type 0 where
  metered : {n : ℕ} → n ≤ ceiling → IsCharged ceiling (some n) n facilitator
  clamped : {n : ℕ} → ceiling < n → IsCharged ceiling (some n) ceiling ceiling_clamped
  unreported : IsCharged ceiling none ceiling ceiling_fallback

-- A receipt under a ceiling.
pub record IsReceipt (ceiling : ℕ) (input : SettlementReceiptInput) (r : SettlementReceipt)
    : Type 0 where
  pub charge : ℕ
  pub charged :
      IsCharged ceiling (parse_settled_amount input.reported_settled_amount) charge r.source
  pub within : charge ≤ ceiling
  pub at_ceiling : r.authorized_ceiling ≡ pos ceiling
  pub at_charge : r.settled_amount ≡ pos charge
  pub at_unused : r.unused_ceiling ≡ pos (ceiling - charge)
  pub below : (r.settled_below_ceiling ≡ true) ↔ (charge < ceiling)
  pub at_transaction : r.transaction ≡ input.transaction
  pub at_payer : r.payer ≡ input.payer
  pub at_asset : r.asset ≡ input.asset
  pub at_network : r.network ≡ input.network

pos-sub : (a b : ℕ) → b ≤ a → pos a -ℤ pos b ≡ pos (a - b)
unfolding ◌-ℤ◌
pos-sub a b h = ground arith

settled_of-IsCharged :
    (ceiling : ℕ) (reported : Option ℕ)
    → (charge : ℕ) × ((settled_of (pos ceiling) reported).0 ≡ pos charge)
      × (charge ≤ ceiling)
      × IsCharged ceiling reported charge (settled_of (pos ceiling) reported).1
unfolding settled_of
settled_of-IsCharged ceiling none = (ceiling, refl, omega arith, IsCharged.unreported)
settled_of-IsCharged ceiling (some n) = elim (Bool-cases (lt_ℤ (pos ceiling) (pos n))) [
  | inl over ↦ rw over (ceiling, refl, omega arith, IsCharged.clamped (ground arith))
  | inr fits ↦ rw fits (n, refl, ground arith, IsCharged.metered (ground arith))
]

-- Under a ceiling that is not negative every report gives a receipt.
pub build-IsReceipt :
    (ceiling : ℕ) (input : SettlementReceiptInput)
    → input.authorized_ceiling ≡ pos ceiling
    → (r : SettlementReceipt) × (build_settlement_receipt input ≡ ok r) × IsReceipt ceiling input r
unfolding build_settlement_receipt
build-IsReceipt ceiling input e =
    let reported = parse_settled_amount input.reported_settled_amount in
    let (charge, at, within, charged) = settled_of-IsCharged ceiling reported in
    let same : settled_of input.authorized_ceiling reported ≡ settled_of (pos ceiling) reported =
      ap (λ c. settled_of c reported) e in
    let settled : (settled_of input.authorized_ceiling reported).0 ≡ pos charge =
      ap (λ (p : ℤ × SettledAmountSource). p.0) same ∙ at in
    (
      receipt_at input (settled_of input.authorized_ceiling reported),
      ground (arith, e),
      record {
        charge = charge;
        charged =
            subst (λ (p : ℤ × SettledAmountSource). IsCharged ceiling reported charge p.1)
              (sym same) charged;
        within = within;
        at_ceiling = e;
        at_charge = settled;
        at_unused = rw (settled, e) (pos-sub ceiling charge within);
        below = (λ h. ground (arith, settled, e, h), λ h. ground (arith, settled, e, h));
        at_transaction = refl;
        at_payer = refl;
        at_asset = refl;
        at_network = refl;
      },
    )

-- The header decodes to a settlement: it names a transaction hash and does not report failure.
abbrev pub Settles :
    (String → Option FacilitatorSettleResult) → Response → FacilitatorSettleResult → Type 0
Settles parse res settle =
    (decode_settle_result parse res ≡ some settle)
    × (is_transaction_hash (hash_of settle) ≡ true)
    × (is_unsuccessful settle ≡ false)

receipt_of-settled :
    (ceiling : ℕ) (settle : FacilitatorSettleResult) (context : ReceiptContext)
    → context.authorized_ceiling ≡ pos ceiling
    → is_transaction_hash (hash_of settle) ≡ true
    → is_unsuccessful settle ≡ false
    → (r : SettlementReceipt) × (receipt_of settle context ≡ ok (some r))
      × IsReceipt ceiling (input_of settle context) r
unfolding receipt_of
receipt_of-settled ceiling settle context e hash good =
    let (r, built, is) = build-IsReceipt ceiling (input_of settle context) e in
    (r, rw (hash, good, built) refl, is)

receipt_of-unsettled :
    (settle : FacilitatorSettleResult) (context : ReceiptContext)
    → (is_transaction_hash (hash_of settle) ≡ false) ⊎ (is_unsuccessful settle ≡ true)
    → receipt_of settle context ≡ ok none
unfolding receipt_of
receipt_of-unsettled settle context (inl bad) = rw bad refl
receipt_of-unsettled settle context (inr failed) =
    elim (Bool-cases (is_transaction_hash (hash_of settle))) [
      | inl hash ↦ rw (hash, failed) refl
      | inr bad ↦ rw bad refl
    ]

unsettled-cases :
    (settle : FacilitatorSettleResult)
    → ((is_transaction_hash (hash_of settle) ≡ true) × (is_unsuccessful settle ≡ false))
      ⊎ ((is_transaction_hash (hash_of settle) ≡ false) ⊎ (is_unsuccessful settle ≡ true))
unsettled-cases settle = elim (Bool-cases (is_transaction_hash (hash_of settle))) [
  | inr bad ↦ inr (inl bad)
  | inl hash ↦ elim (Bool-cases (is_unsuccessful settle)) [
    | inl failed ↦ inr (inr failed)
    | inr well ↦ inl (hash, well)
  ]
]

not_both :
    (settle : FacilitatorSettleResult)
    → (is_transaction_hash (hash_of settle) ≡ false) ⊎ (is_unsuccessful settle ≡ true)
    → ¬ ((is_transaction_hash (hash_of settle) ≡ true) × (is_unsuccessful settle ≡ false))
not_both settle (inl bad) h = cc (bad, h.0)
not_both settle (inr failed) h = cc (failed, h.1)

some-eq :
    {a b : FacilitatorSettleResult}
    → ◌≡◌ {A = Option FacilitatorSettleResult} (some a) (some b)
    → a ≡ b
some-eq h = cc

-- Under a ceiling that is not negative a response gives a receipt exactly if its header decodes to a
-- settlement with a transaction hash that does not report failure: the receipt charges what the header
-- reports if that is well formed and within the ceiling, and otherwise the ceiling, and says which. Any
-- other response gives no receipt and no error.
pub receipt_from_response-IsReceipt :
    (parse : String → Option FacilitatorSettleResult) (res : Response) (context : ReceiptContext)
    (ceiling : ℕ)
    → context.authorized_ceiling ≡ pos ceiling
    → ((settle : FacilitatorSettleResult) × Settles parse res settle
        × ((r : SettlementReceipt) × (settlement_receipt_from_response parse res context
              ≡ ok (some r))
            × IsReceipt ceiling (input_of settle context) r))
      ⊎ (((settle : FacilitatorSettleResult) → ¬ Settles parse res settle)
          × (settlement_receipt_from_response parse res context ≡ ok none))
unfolding settlement_receipt_from_response
receipt_from_response-IsReceipt parse res context ceiling e =
    elim (Option-cases (decode_settle_result parse res)) [
      | inl missing ↦
          inr (λ settle s. cc (s.0, missing), rw (settlement_receipt_from_response, missing) refl)
      | inr (settle, found) ↦ elim (unsettled-cases settle) [
        | inl (hash, well) ↦
            let (r, made, is) = receipt_of-settled ceiling settle context e hash well in
            inl (
              settle,
              (found, hash, well),
              (r, rw (settlement_receipt_from_response, found) made, is),
            )
        | inr bad ↦ inr (
          λ other s. not_both settle bad (
              subst (λ x. (is_transaction_hash (hash_of x) ≡ true) × (is_unsuccessful x ≡ false))
                (some-eq (sym s.0 ∙ found)) (s.1, s.2)),
          rw (settlement_receipt_from_response, found) (receipt_of-unsettled settle context bad),
        )
      ]
    ]
