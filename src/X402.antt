-- ===== src/X402.antt =====
-- src/x402-types.ts: the data that an x402 challenge carries, and the errors of the buying side.
-- A challenge is parsed JSON that nothing has validated, so a field that the code tests at run time
-- is a `JsonValue`. Messages of errors are left out: where one class has several, a `Refusal` says
-- which one was thrown.
use vellar_sdk.Prelude.{
  ℕ, ℤ, Bool, String, Option, none, some, List, [], ◌∷◌, ◌==◌, string_eq, if◌then◌else◌,
}

pub data JsonValue : Type 0 where
  bool : Bool → JsonValue
  str : String → JsonValue
  other : JsonValue

-- `value === true`, `value === false`.
abbrev pub is_bool : Bool → Option JsonValue → Bool
is_bool Bool.true (some (bool b)) = b
is_bool Bool.false (some (bool Bool.false)) = Bool.true
is_bool _ _ = Bool.false

pub record PaymentRequirements : Type 0 where
  pub scheme : String
  pub network : String
  pub asset : String
  pub amount : JsonValue
  pub pay_to : String
  pub max_timeout_seconds : Option ℕ
  pub extra : Option (List (String × JsonValue))

pub record PaymentRequired : Type 0 where
  pub x402_version : ℕ
  pub accepts : Option (List PaymentRequirements)

pub record X402PayOptions : Type 0 where
  pub max_amount : ℤ
  pub allowed_assets : Option (List String)

abbrev pub property : String → List (String × JsonValue) → Option JsonValue
property key [] = none
property key ((k, v) ∷ rest) = if k == key then some v else property key rest

-- `extra?.[key]`.
abbrev pub extra_property : String → Option (List (String × JsonValue)) → Option JsonValue
extra_property key none = none
extra_property key (some fields) = property key fields

-- Which message a `NoUsablePaymentOptionError` has.
pub data Refusal : Type 0 where
  none_on_network fees_declared_false fees_not_declared : Refusal
  malformed_header no_header unknown_network : Refusal
  unsupported_version no_options : Refusal

pub data X402Error : Type 0 where
  no_usable_payment_option : Refusal → X402Error
  disallowed_asset : String → List String → X402Error
  max_amount_exceeded : ℕ → ℤ → String → X402Error
  invalid_requirements : JsonValue → X402Error
  payment_rejected : Option String → X402Error
