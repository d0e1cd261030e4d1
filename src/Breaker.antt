-- ===== src/Breaker.antt =====
-- src/circuit-breaker.ts: the circuit breaker that every facilitator call runs under.
-- Each function of the closure takes the closure's variables as a `Breaker` and returns the new
-- ones; a call of `now()` is a time that is passed in, in milliseconds. `execute` is asynchronous:
-- `admit` is the part before `fn()` is awaited and `classify` the part after it, and other calls
-- may run between the two. An `Event` is one such part; `run` is any interleaving of them.
pub mod Invariant
pub mod Trips
pub mod Probe
mod Tests
use vellar_sdk.Prelude.{
  ℕ, ◌+◌, Bool, true, false, ◌&&◌, Option, none, some, List, [], ◌∷◌, leb, ltb, if◌then◌else◌,
}

-- `{ ok, error }`; `error` is `none` where the source has `undefined`.
pub record Settled (E : Type 0) : Type 0 where
  pub success : Bool
  pub error : Option E

-- `classify({ ok: true })` and `classify({ error })`.
abbrev pub returned : {E : Type 0} → Settled E
returned = record { success = true; error = none }

abbrev pub threw : {E : Type 0} → Option E → Settled E
threw e = record { success = false; error = e }

pub record Options (E : Type 0) : Type 0 where
  pub failure_threshold : ℕ
  pub open_duration_ms : ℕ
  pub half_open_max_calls : ℕ
  pub is_failure : Option (Settled E → Bool)

-- The `??` defaults of `createCircuitBreaker`.
abbrev pub default_options : {E : Type 0} → Options E
default_options = record {
  failure_threshold = 5;
  open_duration_ms = 30000;
  half_open_max_calls = 1;
  is_failure = none;
}

-- "closed", "open" and "half-open"; `open` is a reserved word here.
pub data CircuitBreakerState : Type 0 where
  closed opened half_open : CircuitBreakerState

pub record Breaker : Type 0 where
  pub state : CircuitBreakerState
  pub failures : ℕ
  pub opened_at : ℕ
  pub half_open_used : ℕ

-- What a caller of `execute` sees before `fn()` runs.
pub data Admission : Type 0 where
  allowed circuit_open trials_exhausted : Admission

abbrev pub fresh : Breaker
fresh = record { state = closed; failures = 0; opened_at = 0; half_open_used = 0 }

abbrev pub is_opened : CircuitBreakerState → Bool
is_opened opened = true
is_opened _ = false

abbrev pub is_half_open : CircuitBreakerState → Bool
is_half_open half_open = true
is_half_open _ = false

module _ {E : Type 0} (o : Options E) where
  pub trip : ℕ → Breaker → Breaker
  trip now b = record b { state = opened; opened_at = now; failures = o.failure_threshold }

  pub to_half_open : Breaker → Breaker
  to_half_open b = record b { state = half_open; half_open_used = 0 }

  pub close : Breaker → Breaker
  close b = record { state = closed; failures = 0; opened_at = 0; half_open_used = 0 }

  -- `failures++` comes first, so its second test reads the new count.
  pub record_failure : ℕ → Breaker → Breaker
  unfolding trip
  record_failure now b =
      let counted = record b { failures = b.failures + 1 } in
      if is_half_open counted.state && leb 1 counted.failures
      then trip now counted
      else if leb o.failure_threshold counted.failures
      then trip now counted
      else counted

  -- The test of `classify`: the predicate decides where there is one.
  pub counts_as_failure : Settled E → Bool
  counts_as_failure r = elim o.is_failure [
    | some predicate ↦ predicate r
    | none ↦ elim r.error [ some e ↦ true | none ↦ false ]
  ]

  pub classify : ℕ → Settled E → Breaker → Breaker
  unfolding record_failure close
  classify now r b = if counts_as_failure r then record_failure now b else close b

  -- The getter `state`, which moves an open breaker on once the cooldown is over. The source tests
  -- `now() - openedAt >= openDurationMs`, here without a subtraction.
  pub read_state : ℕ → Breaker → Breaker
  unfolding to_half_open
  read_state now b =
      if is_opened b.state && leb (b.opened_at + o.open_duration_ms) now then to_half_open b else b

  -- The tests of `execute` on the state that the getter left. Its second read of `state` finds no
  -- open breaker, so it reads no clock.
  pub admit_read : Breaker → Breaker × Admission
  admit_read b =
      if is_opened b.state
      then (b, circuit_open)
      else if is_half_open b.state
      then if leb o.half_open_max_calls b.half_open_used
        then (b, trials_exhausted)
        else (record b { half_open_used = b.half_open_used + 1 }, allowed)
      else (b, allowed)

  pub admit : ℕ → Breaker → Breaker × Admission
  unfolding read_state admit_read
  admit now b = admit_read (read_state now b)

  -- `execute` with nothing run between its two parts: `fn()` settles with `r` at time `later`.
  pub execute : ℕ → ℕ → Settled E → Breaker → Breaker × Admission
  unfolding admit classify
  execute now later r b =
      let (b', a) = admit now b in
      elim a [ allowed ↦ (classify later r b', allowed) | other ↦ (b', other) ]

-- One synchronous part of the object's methods.
pub data Event (E : Type 0) : Type 0 where
  read_at admit_at : ℕ → Event E
  settle_at : ℕ → Settled E → Event E
  reset_now : Event E

module _ {E : Type 0} (o : Options E) where
  pub handle : Event E → Breaker → Breaker
  unfolding read_state admit classify close
  handle (read_at now) b = read_state o now b
  handle (admit_at now) b = (admit o now b).0
  handle (settle_at now r) b = classify o now r b
  handle reset_now b = close o b

  pub run : List (Event E) → Breaker → Breaker
  run [] b = b
  run (e ∷ es) b = run es (handle e b)
