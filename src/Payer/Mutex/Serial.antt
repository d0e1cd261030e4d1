-- ===== src/Payer/Mutex/Serial.antt =====
-- packages/mcp-x402-payer/src/ledger.ts: calls under the mutex have the effect of one after another.
use vellar_sdk.Prelude.{Result, Bool, false, List, [], ◌∷◌, ◌++◌, map, ◌≡◌, refl, sym, ap, ◌∙◌}
use vellar_sdk.Payer.Mutex.{
  Fiber, settles, turn, Call, waiting, running, settled, Step, start, advance, settle, after, Runs,
  here, takes, enters,
}

module _ {ℓ κ} {S : Type ℓ} {E A : Type κ} where
  -- A function that runs to its end with no other in between.
  unfoldable pub complete : Fiber S (Result E A) → S → S × Result E A
  complete (settles r) s = (s, r)
  complete (turn f k) s = complete (k s) (f s)

  -- The functions one after another.
  unfoldable pub sequential : List (Fiber S (Result E A)) → S → S × List (Result E A)
  sequential [] s = (s, [])
  sequential (f ∷ fs) s =
      let (s', r) = complete f s in let (s'', rs) = sequential fs s' in (s'', r ∷ rs)

  -- What is left of the calls, one after another.
  unfoldable pub finish_all : List (Call S (Result E A)) → S → S × List (Result E A)
  finish_all [] s = (s, [])
  finish_all (waiting f ∷ cs) s =
      let (s', r) = complete f s in let (s'', rs) = finish_all cs s' in (s'', r ∷ rs)
  finish_all (running f ∷ cs) s =
      let (s', r) = complete f s in let (s'', rs) = finish_all cs s' in (s'', r ∷ rs)
  finish_all (settled r ∷ cs) s = let (s', rs) = finish_all cs s in (s', r ∷ rs)

  abbrev pub AllWaiting : List (Call S (Result E A)) → Type 0
  AllWaiting [] = Unit
  AllWaiting (waiting f ∷ cs) = AllWaiting cs
  AllWaiting (running f ∷ cs) = ⊥
  AllWaiting (settled r ∷ cs) = ⊥

  -- Settled calls, then at most one that runs, then waiting ones: no two functions are in flight.
  abbrev pub IsSerial : List (Call S (Result E A)) → Type 0
  IsSerial [] = Unit
  IsSerial (settled r ∷ cs) = IsSerial cs
  IsSerial (running f ∷ cs) = AllWaiting cs
  IsSerial (waiting f ∷ cs) = AllWaiting cs

  AllWaiting-stuck :
      {s s' : S} {cs cs' : List (Call S (Result E A))} → Step false s cs s' cs' → AllWaiting cs → ⊥
  AllWaiting-stuck advance h = h
  AllWaiting-stuck settle h = h
  AllWaiting-stuck (after {c = waiting f} st) h = AllWaiting-stuck st h
  AllWaiting-stuck (after {c = running f} st) h = h
  AllWaiting-stuck (after {c = settled r} st) h = h

  AllWaiting-IsSerial : (cs : List (Call S (Result E A))) → AllWaiting cs → IsSerial cs
  AllWaiting-IsSerial [] h = tt
  AllWaiting-IsSerial (waiting f ∷ cs) h = h
  AllWaiting-IsSerial (running f ∷ cs) h = absurd h
  AllWaiting-IsSerial (settled r ∷ cs) h = absurd h

  pub Step-IsSerial :
      {b : Bool} {s s' : S} {cs cs' : List (Call S (Result E A))}
      → Step b s cs s' cs'
      → IsSerial cs
      → IsSerial cs'
  Step-IsSerial start h = h
  Step-IsSerial advance h = h
  Step-IsSerial (settle {cs = cs}) h = AllWaiting-IsSerial cs h
  Step-IsSerial (after {c = settled r} st) h = Step-IsSerial st h
  Step-IsSerial (after {c = running f} st) h = absurd (AllWaiting-stuck st h)
  Step-IsSerial (after {c = waiting f} st) h = absurd (AllWaiting-stuck st h)

  -- A turn leaves what the calls come to as it is.
  pub Step-finish_all :
      {b : Bool} {s s' : S} {cs cs' : List (Call S (Result E A))}
      → Step b s cs s' cs'
      → IsSerial cs
      → finish_all cs' s' ≡ finish_all cs s
  unfolding finish_all complete
  Step-finish_all start h = refl
  Step-finish_all advance h = refl
  Step-finish_all settle h = refl
  Step-finish_all (after {c = settled r} st) h = cc (Step-finish_all st h)
  Step-finish_all (after {c = running f} st) h = absurd (AllWaiting-stuck st h)
  Step-finish_all (after {c = waiting f} st) h = absurd (AllWaiting-stuck st h)

  AllWaiting-append :
      (cs : List (Call S (Result E A))) (f : Fiber S (Result E A))
      → AllWaiting cs
      → AllWaiting (cs ++ waiting f ∷ [])
  AllWaiting-append [] f h = tt
  AllWaiting-append (waiting g ∷ cs) f h = AllWaiting-append cs f h
  AllWaiting-append (running g ∷ cs) f h = h
  AllWaiting-append (settled r ∷ cs) f h = h

  IsSerial-append :
      (cs : List (Call S (Result E A))) (f : Fiber S (Result E A))
      → IsSerial cs
      → IsSerial (cs ++ waiting f ∷ [])
  IsSerial-append [] f h = tt
  IsSerial-append (waiting g ∷ cs) f h = AllWaiting-append cs f h
  IsSerial-append (running g ∷ cs) f h = AllWaiting-append cs f h
  IsSerial-append (settled r ∷ cs) f h = IsSerial-append cs f h

  -- One more function, after what some functions come to.
  abbrev pub then_run : Fiber S (Result E A) → S × List (Result E A) → S × List (Result E A)
  then_run f (s, rs) = let (s', r) = complete f s in (s', rs ++ r ∷ [])

  finish_all-append :
      (cs : List (Call S (Result E A))) (f : Fiber S (Result E A)) (s : S)
      → finish_all (cs ++ waiting f ∷ []) s ≡ then_run f (finish_all cs s)
  unfolding finish_all
  finish_all-append [] f s = refl
  finish_all-append (waiting g ∷ cs) f s = cc (finish_all-append cs f (complete g s).0)
  finish_all-append (running g ∷ cs) f s = cc (finish_all-append cs f (complete g s).0)
  finish_all-append (settled r ∷ cs) f s = cc (finish_all-append cs f s)

  sequential-append :
      (fs : List (Fiber S (Result E A))) (f : Fiber S (Result E A)) (s : S)
      → sequential (fs ++ f ∷ []) s ≡ then_run f (sequential fs s)
  unfolding sequential
  sequential-append [] f s = refl
  sequential-append (g ∷ fs) f s = cc (sequential-append fs f (complete g s).0)

  pub Runs-IsSerial :
      {s s' : S} {cs' : List (Call S (Result E A))} {fs : List (Fiber S (Result E A))}
      → Runs s [] s' cs' fs
      → IsSerial cs'
  Runs-IsSerial here = tt
  Runs-IsSerial (takes rs st) = Step-IsSerial st (Runs-IsSerial rs)
  Runs-IsSerial (enters {cs' = cs'} f rs) = IsSerial-append cs' f (Runs-IsSerial rs)

  pub Runs-finish_all :
      {s s' : S} {cs' : List (Call S (Result E A))} {fs : List (Fiber S (Result E A))}
      → Runs s [] s' cs' fs
      → finish_all cs' s' ≡ sequential fs s
  unfolding finish_all sequential
  Runs-finish_all here = refl
  Runs-finish_all (takes rs st) = Step-finish_all st (Runs-IsSerial rs) ∙ Runs-finish_all rs
  Runs-finish_all {s} (enters {s'} {cs' = cs'} {fs = fs} f rs) =
      finish_all-append cs' f s'
      ∙ ap (then_run f) (Runs-finish_all rs)
      ∙ sym (sequential-append fs f s)

  -- However the turns of the functions that are called under one mutex interleave with each other and
  -- with further calls, no two of the functions are ever in flight together, and what is done together
  -- with what is left comes to the functions one after another in the order of the calls: their effect
  -- on the shared state and every result, a thrown error among the results too.
  pub mutex-IsSerial :
      {s s' : S} {cs' : List (Call S (Result E A))} {fs : List (Fiber S (Result E A))}
      → Runs s [] s' cs' fs
      → IsSerial cs' × (finish_all cs' s' ≡ sequential fs s)
  mutex-IsSerial rs = (Runs-IsSerial rs, Runs-finish_all rs)

  pub finish_all-settled :
      (rs : List (Result E A)) (s : S) → finish_all (map settled rs) s ≡ (s, rs)
  unfolding finish_all
  finish_all-settled [] s = refl
  finish_all-settled (r ∷ rs) s = cc (finish_all-settled rs s)

  -- Once every call is settled, the state and the results are those of the functions one after another.
  pub mutex_settled :
      {s s' : S} {fs : List (Fiber S (Result E A))} (rs : List (Result E A))
      → Runs s [] s' (map settled rs) fs
      → ◌≡◌ {A = S × List (Result E A)} (s', rs) (sequential fs s)
  mutex_settled {s'} rs runs = sym (finish_all-settled rs s') ∙ Runs-finish_all runs
