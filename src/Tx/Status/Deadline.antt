-- ===== src/Tx/Status/Deadline.antt =====
-- src/tx-status.ts: `waitForTransaction` ends, and with which result.
use vellar_sdk.Prelude.{
  ℕ, zero, suc, ◌+◌, ◌*◌, ◌≤◌, ◌<◌, Option, none, some, Result, ok, err, ltb, ◌≡◌, inl, inr, arith,
  Bool-cases, Option-cases, ◌==◌, nat_eq,
}
use vellar_sdk.Tx.Status.{
  TxStatus, TransactionTimeoutError, final_status, WaitOptions, value_or, default_timeout_ms,
  default_interval_ms, poll_from, wait_for_transaction,
}
use vellar_sdk.Tx.Status.Ends.{Ends, poll_from-Ends}

abbrev pub timeout_of : WaitOptions → ℕ
timeout_of options = value_or default_timeout_ms options.timeout_ms

abbrev pub interval_of : WaitOptions → ℕ
interval_of options = value_or default_interval_ms options.interval_ms

-- What `Date.now` and a sleep of `interval_ms` give: the clock does not run backwards before the
-- first poll ends, and between two polls it advances by at least the interval.
pub record Sleeps (now : ℕ → ℕ) (interval_ms : ℕ) : Type 0 where
  pub start : now 0 ≤ now 1
  pub sleep : (k : ℕ) → now (suc k) + interval_ms ≤ now (suc (suc k))

module _ (reader : ℕ → Option TxStatus) (now : ℕ → ℕ) (options : WaitOptions) where
  abbrev interval : ℕ
  interval = interval_of options

  abbrev deadline : ℕ
  deadline = now 0 + timeout_of options

  -- How a call that made all its polls ends.
  abbrev pub WaitEnds : Result TransactionTimeoutError TxStatus → Type 0
  WaitEnds = Ends reader now (timeout_of options) interval deadline 0

  module _ (clock : Sleeps now interval) where
    now_after : (i : ℕ) → now 0 + i * interval ≤ now (suc i)
    now_after zero = omega (arith, clock.start)
    now_after (suc i) = omega (arith, now_after i, clock.sleep i)

    poll_from_total :
        (polls i : ℕ)
        → i * interval ≤ timeout_of options
        → timeout_of options < (polls + i) * interval
        → (r : Result TransactionTimeoutError TxStatus) × (poll_from reader now
              (timeout_of options)
              interval
              deadline
              polls
              i
            ≡ some r)
    unfolding poll_from
    poll_from_total zero i le lt = absurd (grind arith)
    poll_from_total (suc polls) i le lt = elim (Option-cases (final_status (reader i))) [
      | inr (s, final) ↦ (ok s, ground arith)
      | inl unfinal ↦ elim (Bool-cases (ltb deadline (now (suc i) + interval))) [
        | inl late ↦ (err (record { timeout_ms = timeout_of options }), ground arith)
        | inr early ↦
            let rest = poll_from_total polls (suc i) (ground (arith, now_after i)) (omega arith) in
            (rest.0, ground (arith, rest.1))
      ]
    ]

    -- Where each sleep advances the clock by at least the interval, a wait ends after as many polls
    -- as there are intervals in its timeout and one more. It returns the first final status that a
    -- poll reads if every poll before left time for another, and otherwise throws the timeout error
    -- after the first poll that leaves no time for another; a poll whose reader throws is one that
    -- reads no final status.
    pub wait_total :
        (polls : ℕ)
        → timeout_of options < polls * interval
        → (r : Result TransactionTimeoutError TxStatus) × (wait_for_transaction polls reader now
              options
            ≡ some r)
          × WaitEnds r
    unfolding wait_for_transaction
    wait_total polls lt =
        let (r, e) = poll_from_total polls 0 (omega arith) (omega arith) in
        (r, e, poll_from-Ends reader now _ _ _ polls 0 r e)

  -- The first final status from poll `i` on is read at `first`.
  abbrev pub FirstFinal : ℕ → ℕ → TxStatus → Type 0
  FirstFinal i first s =
      (final_status (reader first) ≡ some s)
      × ((k : ℕ) → i ≤ k → k < first → final_status (reader k) ≡ none)

  FirstFinal-later :
      (i first : ℕ) (s : TxStatus)
      → final_status (reader i) ≡ none
      → FirstFinal (suc i) first s
      → FirstFinal i first s
  FirstFinal-later i first s unfinal (final, before) = (
    final,
    λ k le lt. elim (Bool-cases (k == i)) [
      | inl here ↦ let same : k ≡ i = ground arith in rw same unfinal
      | inr later ↦ before k (ground arith) lt
    ],
  )

  -- Poll `n` reads a final status, and the polls before it leave time for it.
  abbrev pub InTime : ℕ → TxStatus → Type 0
  InTime n last =
      (final_status (reader n) ≡ some last) × ((k : ℕ) → k < n → now (suc k) + interval ≤ deadline)

  poll_from-FirstFinal :
      (polls i n : ℕ) (last : TxStatus)
      → InTime n last
      → i ≤ n
      → n < polls + i
      → (s : TxStatus) × (first : ℕ) × (poll_from reader now
            (timeout_of options)
            interval
            deadline
            polls
            i
          ≡ some (ok s))
        × (first ≤ n)
        × FirstFinal i first s
  unfolding poll_from
  poll_from-FirstFinal zero i n last t le lt = absurd (omega arith)
  poll_from-FirstFinal (suc polls) i n last t le lt =
      elim (Option-cases (final_status (reader i))) [
        | inr (s, final) ↦ (s, i, ground arith, le, (final, λ k from to. absurd (omega arith)))
        | inl unfinal ↦
            let more : i < n = before unfinal in
            let (s, first, e, in_time, f) =
              poll_from-FirstFinal polls (suc i) n last t more (omega arith) in
            (s, first, ground (arith, t.1 i more), in_time, FirstFinal-later i first s unfinal f)
      ]
    where
      before : final_status (reader i) ≡ none → i < n
      before unfinal = elim (Bool-cases (i == n)) [
        | inl here ↦ let same : i ≡ n = ground arith in absurd (ground (arith, t.0))
        | inr other ↦ ground arith
      ]

  -- A final status that some poll reads, where the polls before it leave time for it, is not lost: the
  -- wait returns the first final status there is, however many polls before it read a pending one or
  -- threw.
  pub wait-FirstFinal :
      (polls n : ℕ) (last : TxStatus)
      → InTime n last
      → n < polls
      → (s : TxStatus) × (first : ℕ) × (wait_for_transaction polls reader now options ≡ some (ok s))
        × (first ≤ n)
        × FirstFinal 0 first s
  unfolding wait_for_transaction
  wait-FirstFinal polls n last t lt =
      poll_from-FirstFinal polls 0 n last t (omega arith) (omega arith)
