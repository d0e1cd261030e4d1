-- ===== src/Guards/Settlement/Outcomes.antt =====
-- src/x402-guards.ts: exactly when a paid response counts as settled, as not spent, or as neither.
use vellar_sdk.Prelude.{
  sym, ◌∙◌, String, true, false, ◌≡◌, ◌≢◌, ◌↔◌, ◌⊎◌, Option, none, some, arith, refl, Option-cases,
  inl, inr, eq_iff, string_eq,
}
use vellar_sdk.Http.{Response}
use vellar_sdk.Guards.Settlement.{
  SettleResult, decode_settle_response_header, is_retryable_settle_failure, is_transaction_hash,
  settled, not_spent, indeterminate, no_settle_information, transaction_of, classify_settle_result,
  classify_settlement, decode_settlement_header,
}

is_transaction_hash-empty : is_transaction_hash "" ≡ false
unfolding is_transaction_hash
is_transaction_hash-empty = refl

-- The statements below, of a decoded result.
abbrev IsSettled : SettleResult → String → Option String → Type 0
IsSettled settle tx payer =
    (settle.success ≢ some false)
    × (settle.transaction ≡ some tx)
    × (is_transaction_hash tx ≡ true)
    × (settle.payer ≡ payer)

abbrev IsUnspent : SettleResult → Option String → Type 0
IsUnspent settle reason =
    (settle.success ≡ some false)
    × ((settle.transaction ≡ none) ⊎ (settle.transaction ≡ some ""))
    × (settle.error_reason ≡ reason)

result-settled_iff :
    (settle : SettleResult) (tx : String) (payer : Option String)
    → (classify_settle_result settle ≡ settled tx payer) ↔ IsSettled settle tx payer
unfolding classify_settle_result
result-settled_iff settle tx payer = (
  λ h. (
    ground (arith, is_transaction_hash-empty),
    ground (arith, is_transaction_hash-empty),
    ground (arith, is_transaction_hash-empty),
    ground (arith, is_transaction_hash-empty),
  ),
  λ h. ground (arith, is_transaction_hash-empty, eq_iff tx ""),
)

result-not_spent_iff :
    (settle : SettleResult) (reason : Option String)
    → (classify_settle_result settle ≡ not_spent reason) ↔ IsUnspent settle reason
unfolding classify_settle_result
result-not_spent_iff settle reason = (
  λ h. (ground arith, ground (arith, eq_iff (transaction_of settle) ""), ground arith),
  λ h. ground (arith, eq_iff (transaction_of settle) ""),
)

result-retryable_iff :
    (settle : SettleResult)
    → (is_retryable_settle_failure (some settle) ≡ true) ↔ (
        (settle.success ≡ some false)
        × ((settle.transaction ≡ none) ⊎ (settle.transaction ≡ some "")))
unfolding is_retryable_settle_failure
result-retryable_iff settle = (
  λ h. (ground arith, ground (arith, eq_iff (transaction_of settle) "")),
  λ h. ground (arith, eq_iff (transaction_of settle) ""),
)

not_retryable-none : is_retryable_settle_failure none ≡ false
unfolding is_retryable_settle_failure
not_retryable-none = refl

module _ (parse : String → Option SettleResult) (res : Response) where
  classify-none :
      decode_settle_response_header parse res ≡ none
      → classify_settlement parse res ≡ indeterminate no_settle_information none
  unfolding classify_settlement
  classify-none e = rw (e, classify_settlement)

  classify-some :
      {settle : SettleResult}
      → decode_settle_response_header parse res ≡ some settle
      → classify_settlement parse res ≡ classify_settle_result settle
  unfolding classify_settlement
  classify-some e = rw (e, classify_settlement)

  -- A response counts as settled, with a transaction and a payer, exactly when its settle header
  -- decodes to a result that does not report failure, names that transaction, names that payer (or
  -- none), and the transaction is a 64-digit hexadecimal hash.
  pub classify-settled_iff :
      (tx : String) (payer : Option String)
      → (classify_settlement parse res ≡ settled tx payer) ↔ (
          (settle : SettleResult) × (decode_settle_response_header parse res ≡ some settle)
          × (settle.success ≢ some false)
          × (settle.transaction ≡ some tx)
          × (is_transaction_hash tx ≡ true)
          × (settle.payer ≡ payer))
  classify-settled_iff tx payer = (
    λ h. elim (Option-cases (decode_settle_response_header parse res)) [
      | inl e ↦ cc (classify-none e)
      | inr (settle, e) ↦
          let (a, b, c, d) = (result-settled_iff settle tx payer).0 (sym (classify-some e) ∙ h) in
          (settle, e, a, b, c, d)
    ],
    λ (settle, e, a, b, c, d).
        classify-some e ∙ (result-settled_iff settle tx payer).1 (a, b, c, d),
  )

  -- A response counts as not spent exactly when its settle header decodes to a result that reports
  -- failure and has no transaction or an empty one.
  pub classify-not_spent_iff :
      (reason : Option String)
      → (classify_settlement parse res ≡ not_spent reason) ↔ (
          (settle : SettleResult) × (decode_settle_response_header parse res ≡ some settle)
          × (settle.success ≡ some false)
          × ((settle.transaction ≡ none) ⊎ (settle.transaction ≡ some ""))
          × (settle.error_reason ≡ reason))
  classify-not_spent_iff reason = (
    λ h. elim (Option-cases (decode_settle_response_header parse res)) [
      | inl e ↦ cc (classify-none e)
      | inr (settle, e) ↦
          let (a, b, c) = (result-not_spent_iff settle reason).0 (sym (classify-some e) ∙ h) in
          (settle, e, a, b, c)
    ],
    λ (settle, e, a, b, c). classify-some e ∙ (result-not_spent_iff settle reason).1 (a, b, c),
  )

  -- The test that guards the retry of a rejected payment and the classification of an accepted one
  -- agree: a retry is allowed exactly when the response counts as not spent.
  pub retryable-not_spent_iff :
      (is_retryable_settle_failure (decode_settle_response_header parse res) ≡ true)
      ↔ ((reason : Option String) × (classify_settlement parse res ≡ not_spent reason))
  retryable-not_spent_iff = elim (Option-cases (decode_settle_response_header parse res)) [
    | inl e ↦ (λ h. cc (not_retryable-none, rw e at h), λ (reason, h). cc (classify-none e))
    | inr (settle, e) ↦ (
      λ h.
          let (a, b) = (result-retryable_iff settle).0 (rw e at h) in
          (settle.error_reason, classify-some e ∙ (result-not_spent_iff settle _).1 (a, b, refl)),
      λ (reason, h).
          let (a, b, c) = (result-not_spent_iff settle reason).0 (sym (classify-some e) ∙ h) in
          rw e ((result-retryable_iff settle).1 (a, b)),
    )
  ]

  -- `decodeSettlementHeader` reads a result that reports failure as a settlement whenever it names a
  -- transaction, while the classification never counts such a result as settled.
  pub failed_settlement_decoded :
      (settle : SettleResult) (tx : String)
      → decode_settle_response_header parse res ≡ some settle
      → settle.success ≡ some false
      → settle.transaction ≡ some tx
      → tx ≢ ""
      → (decode_settlement_header parse res ≡ some (tx, settle.payer))
        × ((t : String) (payer : Option String) → classify_settlement parse res ≢ settled t payer)
  unfolding decode_settlement_header
  failed_settlement_decoded settle tx e f t ne = (
    rw (e, decode_settlement_header) (ground (arith, eq_iff tx "")),
    λ t' payer h. ((result-settled_iff settle t' payer).0 (sym (classify-some e) ∙ h)).0 f,
  )
