-- ===== src/Payer/Mutex.antt =====
-- packages/mcp-x402-payer/src/ledger.ts: `createMutex`. A call's function is a fiber, the synchronous
-- turns between its awaits, each of which updates the shared state and may read it. `tail.then(fn, fn)`
-- starts the function once the promise before it is settled, either way; `tail` is the promise of the
-- newest call, so the calls form a list, oldest first, and each waits for the one before it.
pub mod Serial
pub mod Progress
mod Tests
use vellar_sdk.Prelude.{Bool, true, false, List, [], ◌∷◌, ◌++◌, Result, ok, err}

-- What is left of an async function: it settles, or takes a turn.
pub data Fiber {ℓ κ} (S : Type ℓ) (R : Type κ) : Type (ℓ ⊔ κ) where
  settles : R → Fiber S R
  turn : (S → S) → (S → Fiber S R) → Fiber S R

-- The promise of a call.
pub data Call {ℓ κ} (S : Type ℓ) (R : Type κ) : Type (ℓ ⊔ κ) where
  waiting : Fiber S R → Call S R
  running : Fiber S R → Call S R
  settled : R → Call S R

module _ {ℓ κ} {S : Type ℓ} {E A : Type κ} where
  abbrev pub is_settled : Call S (Result E A) → Bool
  is_settled (waiting f) = false
  is_settled (running f) = false
  is_settled (settled (ok a)) = true
  is_settled (settled (err e)) = true

  -- One synchronous turn of the event loop on the shared state and the calls, where `free` tells whether
  -- the promise before the first of them is settled: `Promise.resolve()` is.
  pub data Step
      : Bool → S → List (Call S (Result E A)) → S → List (Call S (Result E A)) → Type (ℓ ⊔ κ) where
    start :
        {s : S} {f : Fiber S (Result E A)} {cs : List (Call S (Result E A))}
        → Step true s (waiting f ∷ cs) s (running f ∷ cs)
    advance :
        {b : Bool} {s : S} {f : S → S} {k : S → Fiber S (Result E A)}
        {cs : List (Call S (Result E A))}
        → Step b s (running (turn f k) ∷ cs) (f s) (running (k s) ∷ cs)
    settle :
        {b : Bool} {s : S} {r : Result E A} {cs : List (Call S (Result E A))}
        → Step b s (running (settles r) ∷ cs) s (settled r ∷ cs)
    after :
        {b : Bool} {s s' : S} {c : Call S (Result E A)} {cs cs' : List (Call S (Result E A))}
        → Step (is_settled c) s cs s' cs'
        → Step b s (c ∷ cs) s' (c ∷ cs')

  -- Any number of turns, and of new calls of `run` between them.
  pub data Runs (s : S) (cs : List (Call S (Result E A)))
      : S → List (Call S (Result E A)) → List (Fiber S (Result E A)) → Type (ℓ ⊔ κ) where
    here : Runs s cs s cs []
    takes :
        {s' s'' : S} {cs' cs'' : List (Call S (Result E A))} {fs : List (Fiber S (Result E A))}
        → Runs s cs s' cs' fs
        → Step true s' cs' s'' cs''
        → Runs s cs s'' cs'' fs
    enters :
        {s' : S} {cs' : List (Call S (Result E A))} {fs : List (Fiber S (Result E A))}
        (f : Fiber S (Result E A))
        → Runs s cs s' cs' fs
        → Runs s cs s' (cs' ++ waiting f ∷ []) (fs ++ f ∷ [])
