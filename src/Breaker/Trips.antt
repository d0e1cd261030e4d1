-- ===== src/Breaker/Trips.antt =====
-- src/circuit-breaker.ts: how settled calls move the breaker, whatever order they settle in.
use vellar_sdk.Prelude.{ℕ, ◌+◌, ◌≤◌, ◌<◌, ◌≡◌, ◌⊎◌, List, [], ◌∷◌, arith, if◌then◌else◌}
use vellar_sdk.Breaker.{
  Settled, Options, Breaker, closed, opened, fresh, Event, settle_at, counts_as_failure, classify,
  handle, run,
}

-- Calls that settle, each with its time.
abbrev pub Settlements : Type 0 → Type 0
Settlements E = List (ℕ × Settled E)

abbrev pub settlements : {E : Type 0} → Settlements E → List (Event E)
settlements [] = []
settlements ((now, r) ∷ rs) = settle_at now r ∷ settlements rs

module _ {E : Type 0} (o : Options E) where
  -- The failures at the end of the list that no success interrupts, after `n` before it.
  pub streak : ℕ → Settlements E → ℕ
  streak n [] = n
  streak n ((now, r) ∷ rs) = streak (if counts_as_failure o r then n + 1 else 0) rs

  -- What the count alone says of the breaker.
  abbrev pub Tracks : ℕ → Breaker → Type 0
  Tracks n b =
      ((b.state ≡ closed) × (b.failures ≡ n) × (n < o.failure_threshold))
      ⊎ ((b.state ≡ opened) × (b.failures ≡ o.failure_threshold) × (o.failure_threshold ≤ n))

  module _ (positive : 0 < o.failure_threshold) where
    classify-Tracks :
        (n now : ℕ) (r : Settled E) (b : Breaker)
        → Tracks n b
        → Tracks (if counts_as_failure o r then n + 1 else 0) (classify o now r b)
    unfolding classify
    classify-Tracks n now r b h = ground arith

    run-Tracks :
        (rs : Settlements E) (n : ℕ) (b : Breaker)
        → Tracks n b
        → Tracks (streak n rs) (run o (settlements rs) b)
    unfolding streak run handle
    run-Tracks [] n b h = h
    run-Tracks ((now, r) ∷ rs) n b h =
        run-Tracks rs _ (classify o now r b) (classify-Tracks n now r b h)

    -- However many calls were let through before the first of them settled: after they settle in any
    -- order, a fresh breaker with a threshold of at least one is closed with the length of the last
    -- unbroken run of failures as its count when that run is shorter than the threshold, and open
    -- with its count at the threshold when it is not.
    pub run-streak : (rs : Settlements E) → Tracks (streak 0 rs) (run o (settlements rs) fresh)
    unfolding streak
    run-streak rs = run-Tracks rs 0 fresh (ground arith)
