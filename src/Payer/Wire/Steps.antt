-- ===== src/Payer/Wire/Steps.antt =====
-- packages/mcp-x402-payer/src/payer.ts: the ways in which a call of `fetch` or of the signer ends, and
-- what `await` does with them.
use vellar_sdk.Prelude.{
  String, Option, none, some, List, [], ◌∷◌, ok, err, ◌≡◌, refl, ◌⊎◌, inl, inr, arith,
}
use vellar_sdk.Http.{Response}
use vellar_sdk.X402.{PaymentRequired}
use vellar_sdk.Payer.Errors.{PayerError, fetch_failed, sign_failed}
use vellar_sdk.Payer.Wire.{
  Act, signed, answered, World, Paying, ◌>>=◌, fetch, send_paid, sign_payment,
}

module _ {A B : Type 0} (m : Paying A) (f : A → Paying B) {w w' : World} where
  pub bind-err : {e : PayerError} → m w ≡ (err e, w') → (m >>= f) w ≡ (err e, w')
  unfolding ◌>>=◌
  bind-err h = rw h

  pub bind-ok : {a : A} → m w ≡ (ok a, w') → (m >>= f) w ≡ f a w'
  unfolding ◌>>=◌
  bind-ok h = rw h

-- The ledger is kept, and the log gets `new` in front.
abbrev pub Logs : World → World → List Act → Type 0
Logs w w' log = (w'.ledger ≡ w.ledger) × (w'.log ≡ log)

abbrev pub EndsLogging : {A : Type 0} → Paying A → World → List Act → (A → List Act) → Type 0
EndsLogging {A} m w failed done =
    ((e : PayerError) × (w' : World) × (m w ≡ (err e, w')) × Logs w w' failed)
    ⊎ ((a : A) × (w' : World) × (m w ≡ (ok a, w')) × Logs w w' (done a))

pub sign_payment-cases :
    (c : PaymentRequired) (w : World)
    → EndsLogging (sign_payment c) w (signed c ∷ w.log) (λ h. signed c ∷ w.log)
unfolding sign_payment
sign_payment-cases c w = by_script w.signs refl
  where
    by_script :
        (l : List (Option String))
        → w.signs ≡ l
        → EndsLogging (sign_payment c) w (signed c ∷ w.log) (λ h. signed c ∷ w.log)
    by_script [] e =
        inl (sign_failed, record w { log = signed c ∷ w.log }, ground arith, (refl, refl))
    by_script (none ∷ ss) e =
        inl
          (sign_failed, record w { signs = ss; log = signed c ∷ w.log }, ground arith, (refl, refl))
    by_script (some h ∷ ss) e =
        inr (h, record w { signs = ss; log = signed c ∷ w.log }, ground arith, (refl, refl))

pub send_paid-cases :
    (headers : String) (w : World)
    → EndsLogging (send_paid headers) w w.log (λ res. answered res ∷ w.log)
unfolding send_paid
send_paid-cases headers w = by_script w.fetches refl
  where
    by_script :
        (l : List (Option Response))
        → w.fetches ≡ l
        → EndsLogging (send_paid headers) w w.log (λ res. answered res ∷ w.log)
    by_script [] e = inl (fetch_failed, w, ground arith, (refl, refl))
    by_script (none ∷ fs) e =
        inl (fetch_failed, record w { fetches = fs }, ground arith, (refl, refl))
    by_script (some res ∷ fs) e =
        inr (res, record w { fetches = fs; log = answered res ∷ w.log }, ground arith, (refl, refl))

pub fetch-cases : (w : World) → EndsLogging fetch w w.log (λ res. w.log)
unfolding fetch
fetch-cases w = by_script w.fetches refl
  where
    by_script :
        (l : List (Option Response)) → w.fetches ≡ l → EndsLogging fetch w w.log (λ res. w.log)
    by_script [] e = inl (fetch_failed, w, ground arith, (refl, refl))
    by_script (none ∷ fs) e =
        inl (fetch_failed, record w { fetches = fs }, ground arith, (refl, refl))
    by_script (some res ∷ fs) e = inr (res, record w { fetches = fs }, ground arith, (refl, refl))

-- The answer of a fetch is the first of the script, of which the rest is left.
pub fetch-head :
    (w : World) (res : Response) (w' : World)
    → fetch w ≡ (ok res, w')
    → w.fetches ≡ some res ∷ w'.fetches
unfolding fetch
fetch-head w res w' h = by_script w.fetches refl
  where
    by_script : (l : List (Option Response)) → w.fetches ≡ l → w.fetches ≡ some res ∷ w'.fetches
    by_script [] e = ground arith
    by_script (none ∷ fs) e = ground arith
    by_script (some r ∷ fs) e = ground arith
