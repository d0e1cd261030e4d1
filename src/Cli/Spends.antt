-- ===== src/Cli/Spends.antt =====
-- packages/cli/src/commands/pay.ts: what the pay command has signed, and for which price.
use vellar_sdk.Prelude.{
  ℤ, ◌≤ℤ◌, lt_ℤ, Bool, true, false, not, String, Option, none, some, List, [], ◌∷◌, ◌⊎◌, ok, err,
  throw_if, ◌≡◌, refl, ap, arith, Bool-cases, Option-cases, Result-cases, inl, inr, >>=-eq-ok,
  ok-eq, is_empty, nat_eq, string_eq,
}
use mathlib.Core.Path.{subst}
use vellar_sdk.Http.{Response, is_ok}
use vellar_sdk.Cli.{
  CliRequirement, CliChallenge, price_of, Selection, chosen, none_exact, none_on_this_network,
  selection_threw, select_requirement,
}
use vellar_sdk.Cli.Pay.{
  PayOptions, PayRefusal, ended, failed, over_max, fees_unsponsored, check_option, check_selection,
  CliAct, sent_request, had_signed, CliWorld, Checked, approve, or_refuse, paid_request,
  sign_and_send, challenge_in, after_probe, probe, run_pay, check_options,
}
use vellar_sdk.Cli.Cheapest.{IsChosen, select_requirement-IsChosen}

-- What the checks before the signature have established of a challenge.
pub record IsApproved (c : Checked) (challenge : CliChallenge) (option : CliRequirement)
    : Type 0 where
  pub accepts : List CliRequirement
  pub price : ℤ
  pub carried : challenge.accepts ≡ some accepts
  pub is_chosen : IsChosen accepts c.network option
  pub priced : price_of option ≡ some price
  pub within : price ≤ℤ c.max_amount
  pub sponsored : option.are_fees_sponsored ≡ some true

-- The ends of a run after its checks: the requests that were sent, what was signed, and where.
pub data PayRun (w : CliWorld) (c : Checked) : List CliAct → Type 0 where
  unsigned : PayRun w c (sent_request (probe c) ∷ [])
  not_sent :
      {challenge : CliChallenge} {option : CliRequirement} {unpaid : Response}
      → w.fetch (probe c) ≡ some unpaid
      → challenge_in w unpaid ≡ ok challenge
      → IsApproved c challenge option
      → PayRun w c (sent_request (probe c) ∷ had_signed challenge ∷ [])
  sent_paid :
      {challenge : CliChallenge} {option : CliRequirement} {unpaid : Response} {payload : String}
      → w.fetch (probe c) ≡ some unpaid
      → challenge_in w unpaid ≡ ok challenge
      → IsApproved c challenge option
      → w.create_payload challenge ≡ some payload
      → PayRun w c (
          sent_request (probe c)
          ∷ had_signed challenge
          ∷ sent_request (paid_request w c payload)
          ∷ [])

sponsored-eq :
    (o : Option Bool)
    → throw_if (not (elim o [ none ↦ false | some b ↦ b ])) fees_unsponsored ≡ ok tt
    → o ≡ some true
sponsored-eq none h = cc h
sponsored-eq (some true) h = refl
sponsored-eq (some false) h = cc h

or_refuse-ok :
    {A : Type 0} (e : PayRefusal) (o : Option A) (a : A) → or_refuse e o ≡ ok a → o ≡ some a
or_refuse-ok e none a h = cc h
or_refuse-ok e (some b) a h = ap some (ok-eq h)

within-ok : (m p : ℤ) → throw_if (lt_ℤ m p) (over_max p) ≡ ok tt → p ≤ℤ m
within-ok m p h = ground arith

check_option-ok :
    (c : Checked) (r option : CliRequirement)
    → check_option c r ≡ ok option
    → (r ≡ option)
      × ((p : ℤ) × (price_of r ≡ some p) × (p ≤ℤ c.max_amount))
      × (r.are_fees_sponsored ≡ some true)
unfolding check_option
check_option-ok c r option h =
    let (p, a1, h1) = >>=-eq-ok (or_refuse failed (price_of r)) _ h in
    let (u2, a2, h2) = >>=-eq-ok (throw_if (lt_ℤ c.max_amount p) (over_max p)) _ h1 in
    let (u3, a3, h3) =
      >>=-eq-ok
        (throw_if (not (elim r.are_fees_sponsored [ none ↦ false | some b ↦ b ])) fees_unsponsored)
        _ h2 in
    (
      ok-eq h3,
      (p, or_refuse-ok failed (price_of r) p a1, within-ok c.max_amount p a2),
      sponsored-eq r.are_fees_sponsored a3,
    )

check_selection-IsApproved :
    (c : Checked) (challenge : CliChallenge) (accepts : List CliRequirement) (s : Selection)
    (option : CliRequirement)
    → challenge.accepts ≡ some accepts
    → select_requirement accepts c.network ≡ s
    → check_selection c s ≡ ok option
    → IsApproved c challenge option
check_selection-IsApproved c challenge accepts none_on_this_network option carried e h = cc h
check_selection-IsApproved c challenge accepts none_exact option carried e h = cc h
check_selection-IsApproved c challenge accepts selection_threw option carried e h = cc h
check_selection-IsApproved c challenge accepts (chosen r) option carried e h =
    let (same, (p, priced, within), sponsored) = check_option-ok c r option h in
    subst (λ z. IsApproved c challenge z) same
      record {
        accepts = accepts;
        price = p;
        carried = carried;
        is_chosen = select_requirement-IsChosen accepts c.network r e;
        priced = priced;
        within = within;
        sponsored = sponsored;
      }

pub approve-IsApproved :
    (c : Checked) (challenge : CliChallenge) (option : CliRequirement)
    → approve c challenge ≡ ok option
    → IsApproved c challenge option
unfolding approve
approve-IsApproved c challenge option h = elim (Option-cases challenge.accepts) [
  | inl missing ↦ cc (rw (missing, approve) at h)
  | inr (accepts, carried) ↦ elim (Bool-cases (is_empty accepts)) [
    | inl nothing ↦ cc (rw (approve, carried, nothing) at h)
    | inr something ↦
        check_selection-IsApproved c challenge accepts (select_requirement accepts c.network) option
          carried refl (rw (approve, carried, something) at h)
  ]
]

module _ (w : CliWorld) (c : Checked) where
  signed_run :
      (challenge : CliChallenge) (option : CliRequirement) (unpaid : Response)
      → w.fetch (probe c) ≡ some unpaid
      → challenge_in w unpaid ≡ ok challenge
      → IsApproved c challenge option
      → PayRun w c (sent_request (probe c) ∷ (sign_and_send w c challenge).0)
  unfolding sign_and_send
  signed_run challenge option unpaid f d a = elim (Option-cases (w.create_payload challenge)) [
    | inl unmade ↦ rw (sign_and_send, unmade) (PayRun.not_sent f d a)
    | inr (payload, made) ↦ rw (sign_and_send, made) (PayRun.sent_paid f d a made)
  ]

  probed_run :
      (unpaid : Response)
      → w.fetch (probe c) ≡ some unpaid
      → PayRun w c (sent_request (probe c) ∷ (after_probe w c unpaid).0)
  unfolding after_probe
  probed_run unpaid f = elim (Bool-cases (is_ok unpaid)) [
    | inl free ↦ rw (after_probe, free) PayRun.unsigned
    | inr asked ↦ elim (Result-cases (challenge_in w unpaid)) [
      | inl (e, none_there) ↦ rw (after_probe, asked, none_there) PayRun.unsigned
      | inr (challenge, decoded) ↦ elim (Result-cases (approve c challenge)) [
        | inl (e, refused) ↦ rw (after_probe, asked, decoded, refused) PayRun.unsigned
        | inr (option, approved) ↦
            rw (after_probe, asked, decoded, approved)
              (signed_run challenge option unpaid f decoded
                (approve-IsApproved c challenge option approved))
      ]
    ]
  ]

-- A run either ends at its checks with nothing sent and nothing signed; or it sends one unpaid request,
-- has at most one challenge signed, and sends at most one paid request, with the same method and body,
-- after it. What is signed is the challenge of the answer, of which the cheapest exact option on the
-- network costs at most the limit and has its fees sponsored.
pub run_pay-PayRun :
    (w : CliWorld) (opts : PayOptions)
    → ((e : PayRefusal) × (check_options w opts ≡ err e) × (run_pay w opts ≡ ([], ended e)))
      ⊎ ((c : Checked) × (check_options w opts ≡ ok c) × PayRun w c (run_pay w opts).0)
unfolding run_pay
run_pay-PayRun w opts = elim (Result-cases (check_options w opts)) [
  | inl (e, refused) ↦ inl (e, refused, rw (run_pay, refused) refl)
  | inr (c, passed) ↦ inr (
    c,
    passed,
    elim (Option-cases (w.fetch (probe c))) [
      | inl dead ↦ rw (run_pay, passed, dead) PayRun.unsigned
      | inr (unpaid, f) ↦ rw (run_pay, passed, f) (probed_run w c unpaid f)
    ],
  )
]
