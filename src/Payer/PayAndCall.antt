-- ===== src/Payer/PayAndCall.antt =====
-- packages/mcp-x402-payer/src/pay-and-call.ts: `payAndCall`. The search's answer is a parameter, `none`
-- where it fails. What the endpoint of each URL answers is a parameter as well, so a payment knows its URL.
pub mod Outcome
mod Tests
use vellar_sdk.Prelude.{
  ℕ, ℤ, pos, lt_ℤ, leb, Bool, true, false, not, String, Option, none, some, List, [], ◌∷◌, length,
  keep, codes, all_digits, big_int, Result, ok, err, if◌then◌else◌,
}
use vellar_sdk.Http.{Response}
use vellar_sdk.Payer.Errors.{PayerError}
use vellar_sdk.Payer.Ledger.{SpendLedger, remaining_for}
use vellar_sdk.Payer.Wire.{Codecs, World}
use vellar_sdk.Payer.Attempt.{PayResult}
use vellar_sdk.Payer.Pay.{PayerConfig, pay_exclusively}
use vellar_sdk.Payer.Search.{SearchResponse, Candidate, or_empty, select_candidates}

pub data PayAndCallError : Type 0 where
  bad_max_amount no_room unreachable : PayAndCallError
  nothing_payable : (results_found : ℕ) → PayAndCallError
  over_max_amount :
      (results_found cheapest_amount : ℕ) → (cheapest_asset : String) → PayAndCallError
  threw : PayerError → PayAndCallError

pub record PayAndCallResult : Type 0 where
  pub paid : PayResult
  pub selected_url : String
  pub results_found : ℕ
  pub results_payable : ℕ

-- `allowedAssets.some((asset) => ledger.remainingFor(asset) > 0n)`, which may throw.
unfoldable pub any_room : SpendLedger → List String → Result PayerError Bool
any_room ledger [] = ok false
any_room ledger (asset ∷ assets) =
    let rest = any_room ledger assets in
    elim (remaining_for ledger asset) [
      | err e ↦ err e
      | ok n ↦ if lt_ℤ (pos 0) n then ok true else rest
    ]

abbrev pub affordable : ℕ → List Candidate → List Candidate
affordable ceiling = keep (λ c. leb c.amount ceiling)

-- What is selected: the first affordable candidate, and how many there are.
unfoldable pub choose : ℕ → ℕ → List Candidate → Result PayAndCallError (Candidate × ℕ)
choose results_found ceiling [] = err (nothing_payable results_found)
choose results_found ceiling (cheapest ∷ more) = elim (affordable ceiling (cheapest ∷ more)) [
  | [] ↦ err (over_max_amount results_found cheapest.amount cheapest.asset)
  | chosen ∷ others ↦ ok (chosen, length (chosen ∷ others))
]

-- What the endpoint of each URL answers, one fetch after another.
abbrev pub Endpoints : Type 0
Endpoints = String → List (Option Response)

module _ (endpoints : Endpoints) (parse : Codecs) (config : PayerConfig) where
  -- `payer.pay(url, maxAmount)`: its fetches go to this URL.
  unfoldable pub pay_url : String → String → World → Result PayerError PayResult × World
  pay_url url max_amount w =
      pay_exclusively parse config max_amount (record w { fetches = endpoints url })

  unfoldable pub pay_chosen :
      String → ℕ → Candidate × ℕ → World → Result PayAndCallError PayAndCallResult × World
  pay_chosen max_amount results_found (chosen, results_payable) w =
      let (r, w') = pay_url chosen.url max_amount w in
      (
        elim r [
          | err e ↦ err (threw e)
          | ok paid ↦ ok (record {
            paid = paid;
            selected_url = chosen.url;
            results_found = results_found;
            results_payable = results_payable;
          })
        ],
        w',
      )

  -- From the answer of the search on.
  unfoldable pub pay_found :
      String → SearchResponse → World → Result PayAndCallError PayAndCallResult × World
  pay_found max_amount found w =
      let results_found = length (or_empty found.resources) in
      elim (choose results_found (big_int (codes max_amount)) (select_candidates config found)) [
        | err e ↦ (err e, w)
        | ok chosen ↦ pay_chosen max_amount results_found chosen w
      ]

  unfoldable pub pay_and_call :
      String → Option SearchResponse → World → Result PayAndCallError PayAndCallResult × World
  pay_and_call max_amount search w =
      if not (all_digits (codes max_amount))
      then (err bad_max_amount, w)
      else elim (any_room w.ledger config.allowed_assets) [
        | err e ↦ (err (threw e), w)
        | ok room ↦ if not room then (err no_room, w) else elim search [
          | none ↦ (err unreachable, w)
          | some found ↦ pay_found max_amount found w
        ]
      ]
