-- ===== src/Client/Paid.antt =====
-- src/x402-client.ts: what a fetch that paid has paid for.
use vellar_sdk.Prelude.{
  ℕ, String, Bool, true, false, not, Option, none, some, Result, ok, err, >>=-eq-ok, ok-eq,
  throw_if, ◌≡◌, refl, sym, ap, ◌∙◌, ◌⊎◌, inl, inr, Bool-cases, Option-cases, ◌==◌, nat_eq,
  if◌then◌else◌,
}
use vellar_sdk.Http.{Response}
use vellar_sdk.X402.{X402Error, PaymentRequirements, PaymentRequired, X402PayOptions}
use vellar_sdk.Guards.Amount.{parse_amount}
use vellar_sdk.Guards.Select.{select_requirements}
use vellar_sdk.Guards.Select.Sound.{IsChoice, select-IsChoice}
use vellar_sdk.Guards.Settlement.{decode_payment_required}
use vellar_sdk.Payer.Attempt.{is_rejected}
use vellar_sdk.Client.{
  ClientError, guard_refused, from_guards, Services, check_budget, simulated, sign_auth,
  expected_for, expiration_ledger, build_at, build_signed_payment, X402Response, read_settlement,
  sent, pay_with, answer_challenge, x402_fetch,
}

from_guards-ok : {A : Type 0} (r : Result X402Error A) (a : A) → from_guards r ≡ ok a → r ≡ ok a
from_guards-ok (ok b) a h = ap ok (ok-eq h)
from_guards-ok (err e) a h = cc

throw_if-ok : {E : Type 0} (b : Bool) (e : E) {u : Unit {0}} → throw_if b e ≡ ok u → b ≡ false
throw_if-ok true e h = cc
throw_if-ok false e h = refl

module _ {V : Type 0} (s : Services V) (opts : X402PayOptions) where
  -- A response that was paid for: which option was paid, at what price, and how.
  pub record Bought (r : X402Response) : Type 0 where
    pub first : Response
    pub decoded : PaymentRequired
    pub requirements : PaymentRequirements
    pub header : String
    pub amount : ℕ
    pub asked : s.send none ≡ some first
    pub challenge : decode_payment_required s.challenge first ≡ ok decoded
    pub choice : IsChoice decoded opts s.caip2 requirements amount
    pub built : build_signed_payment s requirements ≡ ok (header, amount)
    pub answered : s.send (some header) ≡ some r.response
    pub accepted : is_rejected r.response ≡ false
    pub settlement : r.settlement ≡ read_settlement s.settle r.response requirements amount

  sent-ok : (h : Option String) (res : Response) → sent s h ≡ ok res → s.send h ≡ some res
  sent-ok h res e = elim (Option-cases (s.send h)) [
    | inl rejected ↦ cc (rw (rejected, sent) at e)
    | inr (got, there) ↦ there ∙ ap some (ok-eq (rw (there, sent) at e))
  ]

  build_at-amount :
      (q : PaymentRequirements) (n : ℕ) (header : String) (amount : ℕ)
      → build_at s q n ≡ ok (header, amount)
      → n ≡ amount
  unfolding build_at
  build_at-amount q n header amount h =
      let (u, budgeted, h₁) = >>=-eq-ok (check_budget s q) _ h in
      let (auth, at_auth, h₂) = >>=-eq-ok (simulated s q) _ h₁ in
      let (signed, at_signed, h₃) =
        >>=-eq-ok (sign_auth s (expected_for s q n) (expiration_ledger s q) auth) _ h₂ in
      ap (λ (p : String × ℕ). p.1) (ok-eq h₃)

  built-amount :
      (q : PaymentRequirements) (header : String) (amount : ℕ)
      → build_signed_payment s q ≡ ok (header, amount)
      → parse_amount q.amount ≡ ok amount
  unfolding build_signed_payment
  built-amount q header amount h =
      let (n, at_n, h₁) = >>=-eq-ok (from_guards (parse_amount q.amount)) _ h in
      from_guards-ok (parse_amount q.amount) n at_n ∙ ap ok (build_at-amount q n header amount h₁)

  -- What is left of a paid request that is accepted.
  pay_with-ok :
      (q : PaymentRequirements) (header : String) (amount : ℕ) (r : X402Response)
      → pay_with s q (header, amount) ≡ ok r
      → (s.send (some header) ≡ some r.response)
        × (is_rejected r.response ≡ false)
        × (r.settlement ≡ read_settlement s.settle r.response q amount)
  unfolding pay_with
  pay_with-ok q header amount r h =
      let (res, at_res, h₁) = >>=-eq-ok (sent s (some header)) _ h in
      let (u, passed, h₂) = >>=-eq-ok (throw_if (is_rejected res) (guard_refused _)) _ h₁ in
      let same : r ≡ record {
        response = res;
        paid = true;
        settlement = read_settlement s.settle res q amount;
      } =
        sym (ok-eq h₂) in
      rw same (sent-ok (some header) res at_res, throw_if-ok (is_rejected res) _ passed, refl)

  bought :
      (first : Response) (r : X402Response)
      → s.send none ≡ some first
      → answer_challenge s opts first ≡ ok r
      → Bought r
  unfolding answer_challenge
  bought first r asked h =
      let (decoded, at_decoded, h₁) =
        >>=-eq-ok (from_guards (decode_payment_required s.challenge first)) _ h in
      let (q, at_q, h₂) = >>=-eq-ok (from_guards (select_requirements decoded opts s.caip2)) _ h₁ in
      let ((header, amount), built, h₃) = >>=-eq-ok (build_signed_payment s q) _ h₂ in
      let (answered, accepted, settlement) = pay_with-ok q header amount r h₃ in
      let (n, choice) =
        select-IsChoice decoded opts s.caip2 q
          (from_guards-ok (select_requirements decoded opts s.caip2) q at_q) in
      let same : n ≡ amount = ok-eq (sym choice.price ∙ built-amount q header amount built) in
      record {
        first = first;
        decoded = decoded;
        requirements = q;
        header = header;
        amount = amount;
        asked = asked;
        challenge = from_guards-ok (decode_payment_required s.challenge first) decoded at_decoded;
        choice = rw same at choice;
        built = built;
        answered = answered;
        accepted = accepted;
        settlement = settlement;
      }

  module _ (first : Response) where
    abbrev Answer : Result ClientError X402Response
    Answer =
        if not (first.status == 402)
        then ok (record { response = first; paid = false; settlement = none })
        else answer_challenge s opts first

    free_response :
        not (first.status == 402) ≡ true
        → Answer ≡ ok (record { response = first; paid = false; settlement = none })
    free_response h = rw h refl

    challenged : not (first.status == 402) ≡ false → Answer ≡ answer_challenge s opts first
    challenged h = rw h refl

  -- A fetch of the client that does not fail returns the unpaid response, with no settlement; or the
  -- accepted response to a payment that it built for the option that the guards chose from the
  -- challenge, at the price of the option, which is within the caller's limit.
  pub x402_fetch-Bought :
      (r : X402Response)
      → x402_fetch s opts ≡ ok r
      → ((r.paid ≡ false) × (r.settlement ≡ none) × (s.send none ≡ some r.response)) ⊎ Bought r
  unfolding x402_fetch
  x402_fetch-Bought r h =
      let (first, at_first, h₁) = >>=-eq-ok (sent s none) _ h in
      let asked = sent-ok none first at_first in
      elim (Bool-cases (not (first.status == 402))) [
        | inl free ↦
            let same = ok-eq (sym (free_response first free) ∙ h₁) in
            inl (rw (← same) (refl, refl, asked))
        | inr asks ↦ inr (bought first r asked (sym (challenged first asks) ∙ h₁))
      ]
