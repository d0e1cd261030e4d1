-- ===== src/Payer/Pay/Concurrent.antt =====
-- packages/mcp-x402-payer/src/payer.ts: `pay`, which calls `payExclusively` under the payer's mutex.
-- What the endpoint and the signer do in one payment is its own script; the ledger is shared.
use vellar_sdk.Prelude.{String, Option, List, [], ◌∷◌, map, Result, ◌≡◌, refl, ap, ◌∙◌}
use vellar_sdk.Http.{Response}
use vellar_sdk.Payer.Errors.{PayerError}
use vellar_sdk.Payer.Ledger.{SpendLedger}
use vellar_sdk.Payer.Ledger.Spent.{IsWithin}
use vellar_sdk.Payer.Wire.{Codecs, World}
use vellar_sdk.Payer.Attempt.{PayResult}
use vellar_sdk.Payer.Pay.{PayerConfig, pay_exclusively}
use vellar_sdk.Payer.Pay.Guarantees.{pay-IsWithin}
use vellar_sdk.Payer.Mutex.{Fiber, settled, Runs}
use vellar_sdk.Payer.Mutex.Serial.{complete, sequential, mutex_settled}

-- The arguments of one call, and what it meets outside.
pub record PayCall : Type 0 where
  pub max_amount : String
  pub fetches : List (Option Response)
  pub signs : List (Option String)

abbrev pub PayFiber : Type 0
PayFiber = Fiber SpendLedger (Result PayerError PayResult)

module _ (parse : Codecs) (config : PayerConfig) where
  abbrev pub world_of : PayCall → SpendLedger → World
  world_of p l = record { ledger = l; fetches = p.fetches; signs = p.signs; log = [] }

  -- `payExclusively` from its first turn to its last with no other in between.
  unfoldable pub pay_alone : PayCall → SpendLedger → SpendLedger × Result PayerError PayResult
  pay_alone p l =
      let (r, w) = pay_exclusively parse config p.max_amount (world_of p l) in (w.ledger, r)

  -- A division of `payExclusively` into turns.
  abbrev pub IsPay : PayFiber → PayCall → Type 0
  IsPay f p = (l : SpendLedger) → complete f l ≡ pay_alone p l

  abbrev pub ArePays : List PayFiber → List PayCall → Type 0
  ArePays [] [] = Unit
  ArePays (f ∷ fs) (p ∷ ps) = IsPay f p × ArePays fs ps
  ArePays _ _ = ⊥

  -- The payments one after another.
  unfoldable pub pay_each :
      List PayCall → SpendLedger → SpendLedger × List (Result PayerError PayResult)
  pay_each [] l = (l, [])
  pay_each (p ∷ ps) l =
      let (l', r) = pay_alone p l in let (l'', rs) = pay_each ps l' in (l'', r ∷ rs)

  sequential-pay_each :
      (fs : List PayFiber) (ps : List PayCall) (l : SpendLedger)
      → ArePays fs ps
      → sequential fs l ≡ pay_each ps l
  unfolding sequential pay_each
  sequential-pay_each [] [] l h = refl
  sequential-pay_each [] (p ∷ ps) l h = absurd h
  sequential-pay_each (f ∷ fs) [] l h = absurd h
  sequential-pay_each (f ∷ fs) (p ∷ ps) l (e, h) =
      rw (e l) (cc (sequential-pay_each fs ps (pay_alone p l).0 h))

  pay_alone-IsWithin : (p : PayCall) (l : SpendLedger) → IsWithin l → IsWithin (pay_alone p l).0
  unfolding pay_alone
  pay_alone-IsWithin p l h = pay-IsWithin parse config p.max_amount (world_of p l) refl h

  pay_each-IsWithin :
      (ps : List PayCall) (l : SpendLedger) → IsWithin l → IsWithin (pay_each ps l).0
  unfolding pay_each
  pay_each-IsWithin [] l h = h
  pay_each-IsWithin (p ∷ ps) l h = pay_each-IsWithin ps (pay_alone p l).0 (pay_alone-IsWithin p l h)

  -- However the turns of payments that are called concurrently interleave, once all of them are settled
  -- the ledger is within every ceiling if it was before, and the ledger and the results are those of
  -- the payments one after another in the order of the calls.
  pub concurrent_pays-IsWithin :
      (fs : List PayFiber) (ps : List PayCall) (l l' : SpendLedger)
      (rs : List (Result PayerError PayResult))
      → ArePays fs ps
      → IsWithin l
      → Runs l [] l' (map settled rs) fs
      → IsWithin l'
        × (◌≡◌ {A = SpendLedger × List (Result PayerError PayResult)} (l', rs) (pay_each ps l))
  concurrent_pays-IsWithin fs ps l l' rs pays within runs =
      let e = mutex_settled rs runs ∙ sequential-pay_each fs ps l pays in
      (
        rw (ap (λ (t : SpendLedger × List (Result PayerError PayResult)). t.0) e)
            (pay_each-IsWithin ps l within),
        e,
      )
