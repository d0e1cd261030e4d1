-- ===== src/Breaker/Tests.antt =====
-- src/circuit-breaker.ts: runs of the breaker with the default options, and instances.
use vellar_sdk.Prelude.{◌≡◌, refl, String, none, some, [], ◌∷◌, arith}
use vellar_sdk.Breaker.{
  Settled, Options, default_options, Breaker, opened, fresh, threw, read_at, admit_at, settle_at,
  run, counts_as_failure, handle,
}
use vellar_sdk.Breaker.Invariant.{IsValid}
use vellar_sdk.Breaker.Trips.{Settlements, settlements, streak, Tracks, run-streak}

abbrev options : Options String
options = default_options

abbrev failed : Settled String
failed = threw (some "503")

abbrev tripped : Breaker
tripped = record { state = opened; failures = 5; opened_at = 50; half_open_used = 0 }

abbrev five_failures : Settlements String
five_failures = (10, failed) ∷ (20, failed) ∷ (30, failed) ∷ (40, failed) ∷ (50, failed) ∷ []

five_failures_trip : run options (settlements five_failures) fresh ≡ tripped
unfolding run handle counts_as_failure
five_failures_trip = refl

probe_and_reopen :
    run options (read_at 30049 ∷ admit_at 30050 ∷ settle_at 30060 failed ∷ []) tripped
    ≡ record { state = opened; failures = 5; opened_at = 30060; half_open_used = 1 }
unfolding run handle counts_as_failure
probe_and_reopen = refl

-- A rejection with no value is no failure by the default test.
silent_rejection : run options (settle_at 60 (threw none) ∷ []) tripped ≡ fresh
unfolding run handle counts_as_failure
silent_rejection = refl

IsValid-tripped : IsValid options tripped
IsValid-tripped = ground arith

run-streak_example :
    Tracks options (streak options 0 five_failures) (run options (settlements five_failures) fresh)
run-streak_example = run-streak options (omega arith) five_failures
