-- ===== src/Tx/Status/Ends.antt =====
-- src/tx-status.ts: how the polling loop ends.
use vellar_sdk.Prelude.{
  ℕ, zero, suc, ◌+◌, ◌≤◌, ◌<◌, Option, none, some, Result, ok, err, ltb, ◌≡◌, inl, inr, arith,
  Bool-cases, Option-cases, ◌==◌, nat_eq,
}
use vellar_sdk.Tx.Status.{TxStatus, TransactionTimeoutError, final_status, poll_from}

module _ (reader : ℕ → Option TxStatus) (now : ℕ → ℕ) (timeout_ms interval_ms deadline : ℕ) where
  -- Poll `k` gives no final status, and leaves time for another.
  abbrev pub GoesOn : ℕ → Type 0
  GoesOn k = (final_status (reader k) ≡ none) × (now (suc k) + interval_ms ≤ deadline)

  -- Poll `k` decides: a final status is returned, or there is none and no time for another poll.
  abbrev pub Decides : Result TransactionTimeoutError TxStatus → ℕ → Type 0
  Decides (ok s) k = final_status (reader k) ≡ some s
  Decides (err e) k =
      (final_status (reader k) ≡ none)
      × (deadline < now (suc k) + interval_ms)
      × (e.timeout_ms ≡ timeout_ms)

  -- From poll `i` on, every poll before the last goes on and the last decides.
  pub record Ends (i : ℕ) (r : Result TransactionTimeoutError TxStatus) : Type 0 where
    pub last : ℕ
    pub reached : i ≤ last
    pub before : (k : ℕ) → i ≤ k → k < last → GoesOn k
    pub decided : Decides r last

  Ends-later :
      (i : ℕ) (r : Result TransactionTimeoutError TxStatus) → GoesOn i → Ends (suc i) r → Ends i r
  Ends-later i r goes e = record {
    last = e.last;
    reached = omega (arith, e.reached);
    before = λ k le lt. elim (Bool-cases (k == i)) [
      | inl here ↦ let same : k ≡ i = ground arith in rw same goes
      | inr later ↦ e.before k (ground arith) lt
    ];
    decided = e.decided;
  }

  pub poll_from-Ends :
      (polls i : ℕ) (r : Result TransactionTimeoutError TxStatus)
      → poll_from reader now timeout_ms interval_ms deadline polls i ≡ some r
      → Ends i r
  unfolding poll_from
  poll_from-Ends zero i r h = ground arith
  poll_from-Ends (suc polls) i r h = elim (Option-cases (final_status (reader i))) [
    | inr (s, final) ↦
        let e : r ≡ ok s = ground arith in
        record {
          last = i;
          reached = omega arith;
          before = λ k le lt. absurd (omega arith);
          decided = rw e final;
        }
    | inl unfinal ↦ elim (Bool-cases (ltb deadline (now (suc i) + interval_ms))) [
      | inl late ↦
          let e : r ≡ err (record { timeout_ms = timeout_ms }) = ground arith in
          record {
            last = i;
            reached = omega arith;
            before = λ k le lt. absurd (omega arith);
            decided = rw e (ground arith);
          }
      | inr early ↦ Ends-later i r (ground arith) (poll_from-Ends polls (suc i) r (ground arith))
    ]
  ]

  -- An end that is not at poll `i` is an end from the next poll on.
  abbrev next_end :
      (i : ℕ) (r : Result TransactionTimeoutError TxStatus) (e : Ends i r)
      → suc i ≤ e.last
      → Ends (suc i) r
  next_end i r e le = record {
    last = e.last;
    reached = le;
    before = λ k le lt. e.before k (omega arith) lt;
    decided = e.decided;
  }

  -- With a poll for each number up to the last, the loop gives that result.
  pub Ends-poll_from :
      (polls i : ℕ) (r : Result TransactionTimeoutError TxStatus) (e : Ends i r)
      → e.last < polls + i
      → poll_from reader now timeout_ms interval_ms deadline polls i ≡ some r
  unfolding poll_from
  Ends-poll_from zero i r e h = absurd (omega (arith, e.reached))
  Ends-poll_from (suc polls) i r e h = elim (Bool-cases (e.last == i)) [
    | inl here ↦ let same : e.last ≡ i = ground arith in at_last r same e.decided
    | inr more ↦
        let lt : suc i ≤ e.last = ground (arith, e.reached) in
        let rest = Ends-poll_from polls (suc i) r (next_end i r e lt) (omega arith) in
        ground (arith, e.before i (omega arith) lt, rest)
  ]
    where
      at_last :
          (r : Result TransactionTimeoutError TxStatus)
          → e.last ≡ i
          → Decides r e.last
          → poll_from reader now timeout_ms interval_ms deadline (suc polls) i ≡ some r
      at_last (ok s) same d = ground arith
      at_last (err x) same d = ground arith
