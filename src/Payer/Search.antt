-- ===== src/Payer/Search.antt =====
-- packages/mcp-x402-payer/src/pay-and-call.ts: `selectCandidates`. The catalog's amounts are texts, which
-- `BigInt` reads.
pub mod Cheapest
use vellar_sdk.Prelude.{
  ℕ, zero, suc, ◌+◌, ◌*◌, ◌-◌, ℤ, pos, negsuc, Bool, true, false, not, ◌&&◌, ◌||◌, String, Option,
  none, some, List, [], ◌∷◌, any, every, is_empty, length, codes, is_digit, big_int, leb, ◌==◌,
  string_eq, nat_eq, if◌then◌else◌,
}
use vellar_sdk.Tokens.{trim}
use vellar_sdk.Payer.Pay.{PayerConfig}

-- The value of a digit in a base up to 16.
abbrev pub digit_value : ℕ → ℕ
digit_value c =
    if is_digit c
    then c - b'0'
    else if leb b'a' c && leb c b'f'
    then c - b'a' + 10
    else if leb b'A' c && leb c b'F'
    then c - b'A' + 10
    else 16

abbrev pub is_digit_of : ℕ → ℕ → Bool
is_digit_of base c = leb (suc (digit_value c)) base

unfoldable pub value_in : ℕ → ℕ → List ℕ → ℕ
value_in base acc [] = acc
value_in base acc (c ∷ cs) = value_in base (acc * base + digit_value c) cs

-- A non-empty text of digits in a base.
unfoldable pub digits_in : ℕ → List ℕ → Option ℕ
digits_in base cs =
    if not (is_empty cs) && every (is_digit_of base) cs then some (value_in base 0 cs) else none

-- -n.
abbrev pub negated : ℕ → ℤ
negated zero = pos 0
negated (suc n) = negsuc n

abbrev pub as_pos : Option ℕ → Option ℤ
as_pos none = none
as_pos (some n) = some (pos n)

abbrev pub as_negated : Option ℕ → Option ℤ
as_negated none = none
as_negated (some n) = some (negated n)

-- The texts of at least two characters whose second one may be a base.
unfoldable pub big_int_prefixed : ℕ → ℕ → List ℕ → Option ℤ
big_int_prefixed c d cs =
    if c == b'0' && (d == b'x' || d == b'X')
    then as_pos (digits_in 16 cs)
    else if c == b'0' && (d == b'o' || d == b'O')
    then as_pos (digits_in 8 cs)
    else if c == b'0' && (d == b'b' || d == b'B')
    then as_pos (digits_in 2 cs)
    else if c == b'-'
    then as_negated (digits_in 10 (d ∷ cs))
    else if c == b'+'
    then as_pos (digits_in 10 (d ∷ cs))
    else as_pos (digits_in 10 (c ∷ d ∷ cs))

unfoldable pub big_int_trimmed : List ℕ → Option ℤ
big_int_trimmed [] = some (pos 0)
big_int_trimmed (c ∷ []) = as_pos (digits_in 10 (c ∷ []))
big_int_trimmed (c ∷ d ∷ cs) = big_int_prefixed c d cs

-- `BigInt(text)`; `none` where it throws. A blank text is 0.
unfoldable pub big_int_text : String → Option ℤ
big_int_text text = big_int_trimmed (trim (codes text))

pub record CatalogAccept : Type 0 where
  pub scheme : Option String
  pub network : Option String
  pub amount : Option String
  pub asset : Option String
  pub are_fees_sponsored : Option Bool

pub record CatalogResource : Type 0 where
  pub resource : Option String
  pub accepts : Option (List CatalogAccept)

pub record SearchResponse : Type 0 where
  pub resources : Option (List CatalogResource)

pub record Candidate : Type 0 where
  pub url : String
  pub amount : ℕ
  pub asset : String

-- `given ?? []`.
abbrev pub or_empty {ℓ} : {A : Type ℓ} → Option (List A) → List A
or_empty none = []
or_empty (some l) = l

abbrev pub is_text : String → Option String → Bool
is_text s none = false
is_text s (some t) = t == s

abbrev pub is_set : Option Bool → Bool
is_set none = false
is_set (some b) = b

-- The amount, unless it is missing, no integer or negative.
unfoldable pub amount_of : Option String → Option ℕ
amount_of none = none
amount_of (some text) = elim (big_int_text text) [
  | none ↦ none
  | some z ↦ elim z [ pos n ↦ some n | negsuc n ↦ none ]
]

module _ (config : PayerConfig) where
  -- `!a.asset || !config.allowedAssets.includes(a.asset)`.
  abbrev pub allowed_asset : Option String → Option String
  allowed_asset none = none
  allowed_asset (some asset) =
      if not (asset == "") && any (λ b. b == asset) config.allowed_assets then some asset else none

  -- What the inner loop makes of one option.
  unfoldable pub candidate_of : String → CatalogAccept → Option Candidate
  candidate_of url a =
      if is_text config.caip2 a.network && (is_text "exact" a.scheme && is_set a.are_fees_sponsored)
      then elim (allowed_asset a.asset) [
        | none ↦ none
        | some asset ↦ elim (amount_of a.amount) [
          | none ↦ none
          | some n ↦ some (record { url = url; amount = n; asset = asset })
        ]
      ]
      else none

  -- The inner loop, which ends with its first candidate.
  unfoldable pub first_candidate : String → List CatalogAccept → Option Candidate
  first_candidate url [] = none
  first_candidate url (a ∷ as') = elim (candidate_of url a) [
    | some c ↦ some c
    | none ↦ first_candidate url as'
  ]

  unfoldable pub resource_candidate : CatalogResource → Option Candidate
  resource_candidate r = elim r.resource [
    | none ↦ none
    | some url ↦ if url == "" then none else first_candidate url (or_empty r.accepts)
  ]

  -- The outer loop.
  unfoldable pub candidates_from : List CatalogResource → List Candidate
  candidates_from [] = []
  candidates_from (r ∷ rs) =
      let rest = candidates_from rs in
      elim (resource_candidate r) [ none ↦ rest | some c ↦ c ∷ rest ]

-- `payable.sort(...)`, which is stable.
unfoldable pub insert_candidate : Candidate → List Candidate → List Candidate
insert_candidate c [] = c ∷ []
insert_candidate c (d ∷ ds) =
    if leb c.amount d.amount then c ∷ d ∷ ds else d ∷ insert_candidate c ds

unfoldable pub sort_candidates : List Candidate → List Candidate
sort_candidates [] = []
sort_candidates (c ∷ cs) = insert_candidate c (sort_candidates cs)

-- `selectCandidates`, without the count of results.
unfoldable pub select_candidates : PayerConfig → SearchResponse → List Candidate
select_candidates config found = sort_candidates (candidates_from config (or_empty found.resources))
