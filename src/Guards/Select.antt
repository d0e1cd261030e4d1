-- ===== src/Guards/Select.antt =====
-- src/x402-guards.ts, `selectRequirements`: which offered option is paid.
pub mod Sound
pub mod Complete
use vellar_sdk.Prelude.{
  ℕ, ℤ, pos, String, Bool, true, false, ◌&&◌, Option, none, some, List, [], ◌∷◌, Result, ok, err,
  ◌>>=◌, keep, any, is_empty, ltb, lt_ℤ, ◌==◌, string_eq, if◌then◌else◌,
}
use vellar_sdk.X402.{
  PaymentRequirements, PaymentRequired, X402PayOptions, extra_property, is_bool, X402Error,
  no_usable_payment_option, none_on_network, fees_declared_false, fees_not_declared,
  disallowed_asset, max_amount_exceeded,
}
use vellar_sdk.Guards.Amount.{parse_amount}

-- `assets.includes(asset)`.
abbrev pub includes : List String → String → Bool
includes assets asset = any (λ a. a == asset) assets

abbrev pub options_of : PaymentRequired → List PaymentRequirements
options_of decoded = elim decoded.accepts [ some l ↦ l | none ↦ [] ]

abbrev pub is_on_network : String → PaymentRequirements → Bool
is_on_network our_caip2 a = a.scheme == "exact" && a.network == our_caip2

abbrev pub declares_fees : Bool → PaymentRequirements → Bool
declares_fees b a = is_bool b (extra_property "areFeesSponsored" a.extra)

abbrev pub is_allowed : Option (List String) → PaymentRequirements → Bool
is_allowed none a = true
is_allowed (some assets) a = includes assets a.asset

-- The `reduce`: the first of the cheapest. Each round parses both amounts.
unfoldable pub cheapest_from :
    PaymentRequirements → List PaymentRequirements → Result X402Error PaymentRequirements
cheapest_from best [] = ok best
cheapest_from best (a ∷ rest) = do
  x ← parse_amount a.amount
  y ← parse_amount best.amount
  cheapest_from (if ltb x y then a else best) rest

-- The last part of the function, on the allowed candidates.
unfoldable pub pay_cheapest :
    ℤ → PaymentRequirements → List PaymentRequirements → Result X402Error PaymentRequirements
pay_cheapest max_amount first rest = do
  usable ← cheapest_from first rest
  required ← parse_amount usable.amount
  let exceeds = lt_ℤ max_amount (pos required)
  if exceeds then err (max_amount_exceeded required max_amount usable.asset) else ok usable

abbrev pub refuse_assets :
    Option (List String) → List PaymentRequirements → Result X402Error PaymentRequirements
refuse_assets (some assets) (c ∷ cs) = err (disallowed_asset c.asset assets)
-- Not reached: with no allowlist, or with no candidate, `allowed` is not empty or the function has
-- thrown before.
refuse_assets _ _ = err (no_usable_payment_option none_on_network)

abbrev pub from_allowed :
    X402PayOptions
    → List PaymentRequirements
    → List PaymentRequirements
    → Result X402Error PaymentRequirements
from_allowed opts candidates [] = refuse_assets opts.allowed_assets candidates
from_allowed opts candidates (a ∷ rest) = pay_cheapest opts.max_amount a rest

abbrev pub from_candidates :
    X402PayOptions
    → List PaymentRequirements
    → List PaymentRequirements
    → Result X402Error PaymentRequirements
from_candidates opts on_network [] = err (
    no_usable_payment_option
      (if any (declares_fees false) on_network then fees_declared_false else fees_not_declared))
from_candidates opts on_network (c ∷ cs) =
    from_allowed opts (c ∷ cs) (keep (is_allowed opts.allowed_assets) (c ∷ cs))

abbrev pub from_on_network :
    X402PayOptions → List PaymentRequirements → Result X402Error PaymentRequirements
from_on_network opts [] = err (no_usable_payment_option none_on_network)
from_on_network opts (a ∷ rest) =
    from_candidates opts (a ∷ rest) (keep (declares_fees true) (a ∷ rest))

unfoldable pub select_requirements :
    PaymentRequired → X402PayOptions → String → Result X402Error PaymentRequirements
select_requirements decoded opts our_caip2 =
    from_on_network opts (keep (is_on_network our_caip2) (options_of decoded))
