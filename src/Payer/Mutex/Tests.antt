-- ===== src/Payer/Mutex/Tests.antt =====
-- packages/mcp-x402-payer/src/ledger.ts: two calls whose function adds to a shared number.
use vellar_sdk.Prelude.{
  true, Result, ok, err, ℕ, ◌+◌, String, List, [], ◌∷◌, map, ◌≡◌, refl, ltb, if◌then◌else◌,
}
use vellar_sdk.Payer.Mutex.{
  Fiber, settles, turn, waiting, running, settled, start, advance, Runs, here, takes, enters,
}
use vellar_sdk.Payer.Mutex.Serial.{complete, sequential, finish_all, IsSerial, mutex-IsSerial}
use vellar_sdk.Payer.Mutex.Progress.{Turns, mutex_progress}

-- Checks a budget of 100 in one turn, and spends 60 of it in the next.
abbrev one_spend : Fiber ℕ (Result String String)
one_spend =
    turn (λ s. s)
      λ s.
        if ltb 100 (s + 60)
        then settles (err "refused")
        else turn (λ t. t + 60) (λ t. settles (ok "spent"))

abbrev both : List (Fiber ℕ (Result String String))
both = one_spend ∷ one_spend ∷ []

-- The second call comes while the first is between its check and its spending.
abbrev underway :
    Runs 0 [] 0
      (running (turn (λ t. t + 60) (λ t. settles (ok "spent"))) ∷ waiting one_spend ∷ [])
      both
underway = enters one_spend (takes (takes (enters one_spend here) start) advance)

mutex-IsSerial_example :
    IsSerial
      (running (turn (λ (t : ℕ). t + 60) (λ t. settles (ok "spent"))) ∷ waiting one_spend ∷ [])
    × (finish_all
          (running (turn (λ (t : ℕ). t + 60) (λ t. settles (ok "spent"))) ∷ waiting one_spend ∷ [])
          0
        ≡ sequential both 0)
mutex-IsSerial_example = mutex-IsSerial underway

one_is_refused : sequential both 0 ≡ (60, ok "spent" ∷ err "refused" ∷ [])
unfolding sequential complete
one_is_refused = refl

mutex_progress_example :
    Turns true 0
      (running (turn (λ (t : ℕ). t + 60) (λ t. settles (ok "spent"))) ∷ waiting one_spend ∷ [])
      (sequential both 0).0
      (map settled (sequential both 0).1)
mutex_progress_example = mutex_progress underway
