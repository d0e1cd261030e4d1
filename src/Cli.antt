-- ===== src/Cli.antt =====
-- packages/cli/src/commands: the challenge that the pay and quote commands decode, and the option that
-- the pay command chooses. What JSON.parse makes of a text is a parameter: none where it throws, and a
-- decoded value that may be null.
pub mod Cheapest
pub mod Pay
pub mod Spends
mod Tests
use vellar_sdk.Prelude.{
  ℕ, ℤ, lt_ℤ, Bool, true, false, not, ◌&&◌, String, Option, none, some, List, [], ◌∷◌, keep, ◌==◌,
  string_eq, if◌then◌else◌,
}
use vellar_sdk.Payer.Search.{big_int_text}

-- One of the options of a challenge; `extra?.areFeesSponsored` is none where it is missing.
pub record CliRequirement : Type 0 where
  pub scheme : Option String
  pub network : Option String
  pub amount : Option String
  pub asset : Option String
  pub are_fees_sponsored : Option Bool

pub record CliChallenge : Type 0 where
  pub accepts : Option (List CliRequirement)

abbrev pub Parser : Type 0
Parser = String → Option (Option CliChallenge)

-- `decodeChallenge`, where `from_base64` parses the decoded text of a header.
unfoldable pub decode_challenge : Parser → Parser → Option String → String → Option CliChallenge
decode_challenge from_base64 parse header body =
    let from_body : Option CliChallenge = elim (parse body) [ none ↦ none | some c ↦ c ] in
    elim header [
      | none ↦ from_body
      | some h ↦ if h == "" then from_body else elim (from_base64 h) [
        | some c ↦ c
        | none ↦ elim (parse h) [ some c ↦ c | none ↦ from_body ]
      ]
    ]

abbrev pub is_given : String → Option String → Bool
is_given s none = false
is_given s (some t) = t == s

-- `BigInt(a.amount ?? "0")`, none where it throws.
unfoldable pub price_of : CliRequirement → Option ℤ
price_of a = big_int_text (elim a.amount [ none ↦ "0" | some text ↦ text ])

-- `reduce`, from the first option: none where a price does not parse.
unfoldable pub cheapest_option : CliRequirement → List CliRequirement → Option CliRequirement
cheapest_option lo [] = some lo
cheapest_option lo (a ∷ rest) = elim (price_of a) [
  | none ↦ none
  | some p ↦ elim (price_of lo) [
    | none ↦ none
    | some q ↦ cheapest_option (if lt_ℤ p q then a else lo) rest
  ]
]

pub data Selection : Type 0 where
  chosen : CliRequirement → Selection
  none_on_this_network none_exact selection_threw : Selection

unfoldable pub cheapest_exact : List CliRequirement → Selection
cheapest_exact [] = none_exact
cheapest_exact (a ∷ exact) = elim (cheapest_option a exact) [
  | none ↦ selection_threw
  | some r ↦ chosen r
]

abbrev pub on_network_of : String → List CliRequirement → List CliRequirement
on_network_of network = keep (λ a. is_given network a.network)

abbrev pub exact_of : List CliRequirement → List CliRequirement
exact_of = keep (λ a. is_given "exact" a.scheme)

abbrev pub from_on_network_of : List CliRequirement → Selection
from_on_network_of [] = none_on_this_network
from_on_network_of (a ∷ rest) = cheapest_exact (exact_of (a ∷ rest))

unfoldable pub select_requirement : List CliRequirement → String → Selection
select_requirement accepts network = from_on_network_of (on_network_of network accepts)
