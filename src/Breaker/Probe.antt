-- ===== src/Breaker/Probe.antt =====
-- src/circuit-breaker.ts: refusal while open, the limited trials of half-open, and recovery.
use vellar_sdk.Prelude.{
  ℕ, ◌+◌, ◌-◌, ◌≤◌, ◌<◌, ◌≡◌, ◌⊎◌, min, false, true, List, [], ◌∷◌, arith, length, All,
}
use vellar_sdk.Breaker.{
  Settled, Options, Breaker, opened, half_open, Admission, allowed, circuit_open, trials_exhausted,
  fresh, counts_as_failure, admit, execute,
}

module _ {E : Type 0} (o : Options E) where
  -- While the breaker is open and its cooldown has not passed, a call is refused and changes
  -- nothing; once it has passed, a call is let through as the first trial exactly when trials are
  -- allowed at all.
  pub admit-opened :
      (now : ℕ) (b : Breaker)
      → b.state ≡ opened
      → ((now < b.opened_at + o.open_duration_ms) × (admit o now b ≡ (b, circuit_open)))
        ⊎ ((b.opened_at + o.open_duration_ms ≤ now)
            × (1 ≤ o.half_open_max_calls)
            × (admit o now b ≡ (record b { state = half_open; half_open_used = 1 }, allowed)))
        ⊎ ((b.opened_at + o.open_duration_ms ≤ now)
            × (o.half_open_max_calls ≡ 0)
            × (admit o now b
                ≡ (record b { state = half_open; half_open_used = 0 }, trials_exhausted)))
  unfolding admit
  admit-opened now b h = ground arith

  one_if_allowed : Admission → ℕ
  one_if_allowed allowed = 1
  one_if_allowed _ = 0

  -- How many of the calls made at these times are let through, if none of them settles meanwhile.
  pub admitted : List ℕ → Breaker → ℕ
  unfolding one_if_allowed
  admitted [] b = 0
  admitted (now ∷ ts) b = let (b', a) = admit o now b in one_if_allowed a + admitted ts b'

  admitted-half_open :
      (ts : List ℕ) (b : Breaker)
      → b.state ≡ half_open
      → admitted ts b ≡ min (length ts) (o.half_open_max_calls - b.half_open_used)
  unfolding admitted admit
  admitted-half_open [] b h = omega arith
  admitted-half_open (now ∷ ts) b h = ground (
    arith,
    admitted-half_open ts b,
    admitted-half_open ts (record b { half_open_used = b.half_open_used + 1 }),
  )

  -- Once the cooldown of an open breaker is over, exactly the first `halfOpenMaxCalls` of the calls
  -- that arrive before a trial settles are let through, however many arrive.
  pub admitted-opened :
      (ts : List ℕ) (b : Breaker)
      → b.state ≡ opened
      → All (λ now. b.opened_at + o.open_duration_ms ≤ now) ts
      → admitted ts b ≡ min (length ts) o.half_open_max_calls
  unfolding admitted admit
  admitted-opened [] b h late = omega arith
  admitted-opened (now ∷ ts) b h (due, late) = ground (
    arith,
    admitted-half_open ts (record b { state = half_open; half_open_used = 0 }),
    admitted-half_open ts (record b { state = half_open; half_open_used = 1 }),
  )

  -- Recovery: a call made on an open breaker whose cooldown has passed, where trials are allowed at
  -- all, runs; if it settles before any other event, then it leaves the breaker as new where its
  -- outcome is no failure, and open again where it is one, with a full cooldown from that moment.
  pub execute-opened :
      (now later : ℕ) (r : Settled E) (b : Breaker)
      → b.state ≡ opened
      → b.opened_at + o.open_duration_ms ≤ now
      → 1 ≤ o.half_open_max_calls
      → ((counts_as_failure o r ≡ false) × (execute o now later r b ≡ (fresh, allowed)))
        ⊎ ((counts_as_failure o r ≡ true)
            × (execute o now later r b ≡ (
              record {
                state = opened;
                failures = o.failure_threshold;
                opened_at = later;
                half_open_used = 1;
              },
              allowed,
            )))
  unfolding execute
  execute-opened now later r b h due some_trial = ground arith
