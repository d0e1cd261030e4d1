-- ===== src/Payer/Mutex/Progress.antt =====
-- packages/mcp-x402-payer/src/ledger.ts: no call under the mutex is stuck, also after one that throws.
use vellar_sdk.Prelude.{Result, ok, err, Bool, true, List, [], ◌∷◌, map}
use vellar_sdk.Payer.Mutex.{
  Fiber, settles, turn, Call, waiting, running, settled, Step, start, advance, settle, after, Runs,
  takes,
}
use vellar_sdk.Payer.Mutex.Serial.{
  complete, sequential, finish_all, AllWaiting, IsSerial, Runs-IsSerial, Runs-finish_all,
}

module _ {ℓ κ} {S : Type ℓ} {E A : Type κ} where
  -- Some turns, with no new call between them.
  pub data Turns (b : Bool) (s : S) (cs : List (Call S (Result E A)))
      : S → List (Call S (Result E A)) → Type (ℓ ⊔ κ) where
    none_yet : Turns b s cs s cs
    one_more :
        {s' s'' : S} {cs' cs'' : List (Call S (Result E A))}
        → Turns b s cs s' cs'
        → Step b s' cs' s'' cs''
        → Turns b s cs s'' cs''

  Turns-after :
      {b : Bool} {s : S} {cs : List (Call S (Result E A))} {s' : S}
      {cs' : List (Call S (Result E A))} (r : Result E A)
      → Turns true s cs s' cs'
      → Turns b s (settled r ∷ cs) s' (settled r ∷ cs')
  Turns-after r none_yet = none_yet
  Turns-after (ok a) (one_more ts st) = one_more (Turns-after (ok a) ts) (after st)
  Turns-after (err e) (one_more ts st) = one_more (Turns-after (err e) ts) (after st)

  Turns-trans :
      {b : Bool} {s s' : S} {cs cs' : List (Call S (Result E A))} {s'' : S}
      {cs'' : List (Call S (Result E A))}
      → Turns b s cs s' cs'
      → Turns b s' cs' s'' cs''
      → Turns b s cs s'' cs''
  Turns-trans ts none_yet = ts
  Turns-trans ts (one_more us st) = one_more (Turns-trans ts us) st

  -- A call that runs settles with what its function comes to.
  Turns-complete :
      {b : Bool} (f : Fiber S (Result E A)) (s : S) (cs : List (Call S (Result E A)))
      → Turns b s (running f ∷ cs) (complete f s).0 (settled (complete f s).1 ∷ cs)
  unfolding complete
  Turns-complete (settles r) s cs = one_more none_yet settle
  Turns-complete (turn f k) s cs =
      Turns-trans (one_more none_yet advance) (Turns-complete (k s) (f s) cs)

  Turns-waiting :
      (cs : List (Call S (Result E A))) (s : S)
      → AllWaiting cs
      → Turns true s cs (finish_all cs s).0 (map settled (finish_all cs s).1)
  unfolding finish_all
  Turns-waiting [] s h = none_yet
  Turns-waiting (waiting f ∷ cs) s h =
      Turns-trans (Turns-trans (one_more none_yet start) (Turns-complete f s cs))
        (Turns-after (complete f s).1 (Turns-waiting cs (complete f s).0 h))
  Turns-waiting (running f ∷ cs) s h = absurd h
  Turns-waiting (settled r ∷ cs) s h = absurd h

  Turns-finish_all :
      (cs : List (Call S (Result E A))) (s : S)
      → IsSerial cs
      → Turns true s cs (finish_all cs s).0 (map settled (finish_all cs s).1)
  unfolding finish_all
  Turns-finish_all [] s h = none_yet
  Turns-finish_all (settled r ∷ cs) s h = Turns-after r (Turns-finish_all cs s h)
  Turns-finish_all (running f ∷ cs) s h =
      Turns-trans (Turns-complete f s cs)
        (Turns-after (complete f s).1 (Turns-waiting cs (complete f s).0 h))
  Turns-finish_all (waiting f ∷ cs) s h = Turns-waiting (waiting f ∷ cs) s h

  -- Of functions that settle when they run, with a value or with an error: wherever the calls under one
  -- mutex have got to, there are turns from there, with no new call between them, that settle every
  -- one of them, a call after one that threw as well, and leave the state and the results of the
  -- functions one after another in the order of the calls.
  pub mutex_progress :
      {s s' : S} {cs' : List (Call S (Result E A))} {fs : List (Fiber S (Result E A))}
      → Runs s [] s' cs' fs
      → Turns true s' cs' (sequential fs s).0 (map settled (sequential fs s).1)
  mutex_progress {s} {s'} {cs'} {fs} rs =
      let e = Runs-finish_all rs in rw (← e) (Turns-finish_all cs' s' (Runs-IsSerial rs))

  Runs-Turns :
      {s s' : S} {cs cs' : List (Call S (Result E A))} {s'' : S} {cs'' : List (Call S (Result E A))}
      {fs : List (Fiber S (Result E A))}
      → Runs s cs s' cs' fs
      → Turns true s' cs' s'' cs''
      → Runs s cs s'' cs'' fs
  Runs-Turns rs none_yet = rs
  Runs-Turns rs (one_more ts st) = takes (Runs-Turns rs ts) st

  -- A run can be continued to one in which every call is settled.
  pub Runs-settled :
      {s s' : S} {cs' : List (Call S (Result E A))} {fs : List (Fiber S (Result E A))}
      → Runs s [] s' cs' fs
      → Runs s [] (sequential fs s).0 (map settled (sequential fs s).1) fs
  Runs-settled rs = Runs-Turns rs (mutex_progress rs)
