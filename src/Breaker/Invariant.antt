-- ===== src/Breaker/Invariant.antt =====
-- src/circuit-breaker.ts: what the closure's variables satisfy after any interleaving of calls.
use vellar_sdk.Prelude.{◌≤◌, ◌<◌, ◌≡◌, List, [], ◌∷◌, arith}
use vellar_sdk.Breaker.{
  Options, Breaker, closed, opened, half_open, Event, read_at, admit_at, settle_at, reset_now,
  handle, run,
}

-- The count is below the threshold exactly while the breaker is closed, and sits at the threshold
-- otherwise; a closed breaker has no stale cooldown; the trials never pass their limit.
pub record IsValid {E : Type 0} (o : Options E) (b : Breaker) : Type 0 where
  pub below : b.state ≡ closed → b.failures < o.failure_threshold
  pub tripped : b.state ≡ opened → b.failures ≡ o.failure_threshold
  pub probing : b.state ≡ half_open → b.failures ≡ o.failure_threshold
  pub no_cooldown : b.state ≡ closed → b.opened_at ≡ 0
  pub trials : b.half_open_used ≤ o.half_open_max_calls

module _ {E : Type 0} (o : Options E) (positive : 0 < o.failure_threshold) where
  pub handle-IsValid : (e : Event E) (b : Breaker) → IsValid o b → IsValid o (handle o e b)
  unfolding handle
  handle-IsValid (read_at now) b v = ground arith
  handle-IsValid (admit_at now) b v = ground arith
  handle-IsValid (settle_at now r) b v = ground arith
  handle-IsValid reset_now b v = ground arith

  -- With a threshold of at least one, any interleaving of reads, admissions, settlements and
  -- resets keeps a valid breaker valid: the failure count is below the threshold exactly while the
  -- breaker is closed and at the threshold while it is not, a closed breaker has no cooldown left
  -- over, and no more trial calls are counted than the options allow.
  pub run-IsValid : (es : List (Event E)) (b : Breaker) → IsValid o b → IsValid o (run o es b)
  unfolding run
  run-IsValid [] b v = v
  run-IsValid (e ∷ es) b v = run-IsValid es (handle o e b) (handle-IsValid e b v)
