-- ===== src/Payer/PayAndCall/Outcome.antt =====
-- packages/mcp-x402-payer/src/pay-and-call.ts: what is selected and paid, and that nothing else happens.
use mathlib.Core.Path.{subst}
use vellar_sdk.Prelude.{
  ℕ, ◌≤◌, ◌<◌, leb, String, Option, some, List, [], ◌∷◌, length, All, Memᴰ, codes, all_digits,
  big_int, Result, ok, err, ◌≡◌, refl, sym, inl, inr, arith, Bool-cases, Option-cases, Result-cases,
}
use vellar_sdk.Payer.Errors.{PayerError}
use vellar_sdk.Payer.Ledger.Spent.{IsWithin}
use vellar_sdk.Payer.Wire.{Codecs, World}
use vellar_sdk.Payer.Attempt.{PayResult}
use vellar_sdk.Payer.Pay.{PayerConfig}
use vellar_sdk.Payer.Pay.Guarantees.{pay-IsWithin}
use vellar_sdk.Payer.Search.{SearchResponse, Candidate, or_empty, select_candidates}
use vellar_sdk.Payer.Search.Cheapest.{IsSorted, IsFound, select_candidates-IsFound}
use vellar_sdk.Payer.PayAndCall.{
  PayAndCallError, threw, unreachable, PayAndCallResult, any_room, affordable, choose, pay_chosen,
  pay_found, pay_and_call, Endpoints, pay_url,
}

-- Of the candidates, one that costs no more than the ceiling, and none costs less.
abbrev pub IsCheapest : ℕ → List Candidate → Candidate → Type 0
IsCheapest ceiling cs c = Memᴰ c cs × (c.amount ≤ ceiling) × All (λ d. c.amount ≤ d.amount) cs

affordable-none :
    (ceiling n : ℕ) (cs : List Candidate)
    → ceiling < n
    → All (λ d. n ≤ d.amount) cs
    → affordable ceiling cs ≡ []
affordable-none ceiling n [] lt h = refl
affordable-none ceiling n (c ∷ cs) lt (le, h) = ground (arith, affordable-none ceiling n cs lt h)

choose-IsCheapest :
    (n ceiling : ℕ) (cs : List Candidate) (c : Candidate) (k : ℕ)
    → IsSorted cs
    → choose n ceiling cs ≡ ok (c, k)
    → IsCheapest ceiling cs c
unfolding choose
choose-IsCheapest n ceiling [] c k h e = absurd (ground arith)
choose-IsCheapest n ceiling (x ∷ cs) c k (le, h) e = elim (Bool-cases (leb x.amount ceiling)) [
  | inl fits ↦
      let same : c ≡ x = ground arith in
      subst (IsCheapest ceiling (x ∷ cs)) (sym same)
        (Memᴰ.head refl, ground arith, (omega arith, le))
  | inr over ↦
      let none_left = affordable-none ceiling x.amount cs (ground arith) le in absurd (ground arith)
]

module _ (endpoints : Endpoints) (parse : Codecs) (config : PayerConfig) (max_amount : String)
    (search : Option SearchResponse) (w : World) where
  abbrev pub ceiling : ℕ
  ceiling = big_int (codes max_amount)

  -- A payment of the URL of a candidate, and nothing else.
  abbrev pub alone : Candidate → Result PayerError PayResult × World
  alone c = pay_url endpoints parse config c.url max_amount w

  -- The result of the payment of the candidate, passed on.
  abbrev pub PassesOn : Candidate → Result PayAndCallError PayAndCallResult → Type 0
  PassesOn c (ok r) = ((alone c).0 ≡ ok r.paid) × (r.selected_url ≡ c.url)
  PassesOn c (err e) = (x : PayerError) × ((alone c).0 ≡ err x) × (e ≡ threw x)

  -- Nothing is done, or the cheapest of the payable results is paid for under the caller's limit.
  pub data CallEnds : Result PayAndCallError PayAndCallResult → World → Type 0 where
    stopped : (e : PayAndCallError) → CallEnds (err e) w
    bought :
        (found : SearchResponse) (c : Candidate) {r : Result PayAndCallError PayAndCallResult}
        → search ≡ some found
        → IsCheapest ceiling (select_candidates config found) c
        → IsFound config (or_empty found.resources) c
        → PassesOn c r
        → CallEnds r (alone c).1

  abbrev pub Ended : Result PayAndCallError PayAndCallResult × World → Type 0
  Ended t = CallEnds t.0 t.1

  pay_chosen-Ended :
      (found : SearchResponse) (c : Candidate) (n k : ℕ)
      → search ≡ some found
      → IsCheapest ceiling (select_candidates config found) c
      → IsFound config (or_empty found.resources) c
      → Ended (pay_chosen endpoints parse config max_amount n (c, k) w)
  unfolding pay_chosen
  pay_chosen-Ended found c n k s cheapest from = elim (Result-cases (alone c).0) [
    | inl (x, e) ↦
        let same : pay_chosen endpoints parse config max_amount n (c, k) w
            ≡ (err (threw x), (alone c).1) =
          ground arith in
        subst Ended (sym same) (bought found c s cheapest from (x, e, refl))
    | inr (paid, e) ↦
        let done : PayAndCallResult = record {
          paid = paid;
          selected_url = c.url;
          results_found = n;
          results_payable = k;
        } in
        let same : pay_chosen endpoints parse config max_amount n (c, k) w
            ≡ (ok done, (alone c).1) =
          ground arith in
        subst Ended (sym same) (bought found c s cheapest from (e, refl))
  ]

  pay_found-Ended :
      (found : SearchResponse)
      → search ≡ some found
      → Ended (pay_found endpoints parse config max_amount found w)
  unfolding pay_found
  pay_found-Ended found s =
      let n = length (or_empty found.resources) in
      let (sorted, from) = select_candidates-IsFound config found in
      elim (Result-cases (choose n ceiling (select_candidates config found))) [
        | inl (e, bad) ↦
            let same : pay_found endpoints parse config max_amount found w ≡ (err e, w) =
              ground arith in
            subst Ended (sym same) (stopped e)
        | inr ((c, k), good) ↦
            let cheapest =
              choose-IsCheapest n ceiling (select_candidates config found) c k sorted good in
            let same : pay_found endpoints parse config max_amount found w
                ≡ pay_chosen endpoints parse config max_amount n (c, k) w =
              ground arith in
            subst Ended (sym same) (pay_chosen-Ended found c n k s cheapest (from c cheapest.0))
      ]

  -- A call either fails with nothing fetched, signed or debited by the payer, or the search succeeded and
  -- exactly one payment is made, under the caller's limit: of the URL of a candidate that has a payable
  -- option in a result that was found, within the limit and of no greater amount than any candidate,
  -- where amounts are compared as numbers of base units, also of different assets. Its outcome and what it
  -- leaves are then those of the payment of this URL, an error as well.
  pub pay_and_call-CallEnds : Ended (pay_and_call endpoints parse config max_amount search w)
  unfolding pay_and_call
  pay_and_call-CallEnds = elim (Bool-cases (all_digits (codes max_amount))) [
    | inr bad ↦ rw (bad, pay_and_call) (stopped _)
    | inl digits ↦ elim (Result-cases (any_room w.ledger config.allowed_assets)) [
      | inl (e, bad) ↦ rw (digits, bad, pay_and_call) (stopped _)
      | inr (room, known) ↦ elim (Bool-cases room) [
        | inr exhausted ↦ rw (digits, known, exhausted, pay_and_call) (stopped _)
        | inl left ↦ elim (Option-cases search) [
          | inl failed ↦
              let same : pay_and_call endpoints parse config max_amount search w
                  ≡ (err unreachable, w) =
                ground arith in
              subst Ended (sym same) (stopped unreachable)
          | inr (found, s) ↦
              let same : pay_and_call endpoints parse config max_amount search w
                  ≡ pay_found endpoints parse config max_amount found w =
                ground arith in
              subst Ended (sym same) (pay_found-Ended found s)
        ]
      ]
    ]
  ]

  ends-IsWithin :
      (empty : w.log ≡ []) (r : Result PayAndCallError PayAndCallResult) (w' : World)
      → CallEnds r w'
      → IsWithin w.ledger
      → IsWithin w'.ledger
  unfolding pay_url
  ends-IsWithin empty r w' (stopped e) h = h
  ends-IsWithin empty r w' (bought found c s cheapest from p) h =
      pay-IsWithin parse config max_amount (record w { fetches = endpoints c.url }) empty h

  -- A call keeps the ledger within its ceilings.
  pub pay_and_call-IsWithin :
      w.log ≡ []
      → IsWithin w.ledger
      → IsWithin (pay_and_call endpoints parse config max_amount search w).1.ledger
  pay_and_call-IsWithin empty h = ends-IsWithin empty _ _ pay_and_call-CallEnds h
