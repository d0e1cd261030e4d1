-- ===== src/RequestAuth.antt =====
-- src/x402-request-auth.ts: signed requests to the facilitator. A text is the list of its character
-- codes; the digest of Web Crypto, `btoa` and the path of a URL are parameters.
pub mod Compare
pub mod Canonical
pub mod Verify
pub mod Signed
pub mod Wrapped
mod Tests
use vellar_sdk.Prelude.{
  ℕ, ◌-◌, ◌/◌, Bool, true, false, not, ◌&&◌, ◌||◌, List, [], ◌∷◌, ◌++◌, Option, none, some, String,
  Result, ok, err, ◌>>◌, throw_if, is_empty, leb, ◌==◌, nat_eq, string_eq, codes, all_digits,
  big_int, to_string, every, if◌then◌else◌,
}
use vellar_sdk.Tokens.{is_space}
use vellar_sdk.RequestAuth.Compare.{Text, text_eq, timing_safe_equal}

pub record SigningConfig : Type 0 where
  pub key_id : Text
  pub secret : Text

-- The method, the path and, if there is one, the body.
pub record Request : Type 0 where
  pub method : Text
  pub path : Text
  pub body : Option Text

-- The headers X-Vellar-Key-Id, X-Vellar-Timestamp, X-Vellar-Nonce and X-Vellar-Signature.
pub record SignedHeaders : Type 0 where
  pub key_id : Text
  pub timestamp : Text
  pub nonce : Text
  pub signature : Text

pub data SigningError : Type 0 where
  no_key_id no_secret invalid_url : SigningError

abbrev pub algorithm : Text
algorithm = codes "HMAC-SHA256"

abbrev pub space : ℕ
space = b' '

abbrev pub newline : ℕ
newline = 10

-- `toUpperCase` of one character of an HTTP method, which is ASCII.
abbrev pub upper : ℕ → ℕ
upper c = if leb b'a' c && leb c b'z' then c - 32 else c

abbrev pub to_upper_case : Text → Text
to_upper_case [] = []
to_upper_case (c ∷ cs) = upper c ∷ to_upper_case cs

-- `parts.join("\n")`.
unfoldable pub join_lines : List Text → Text
join_lines [] = []
join_lines (p ∷ []) = p
join_lines (p ∷ q ∷ ps) = p ++ newline ∷ join_lines (q ∷ ps)

abbrev pub body_or_empty : Option Text → Text
body_or_empty none = []
body_or_empty (some t) = t

unfoldable pub canonical_request_string : Request → Text → Text → Text
canonical_request_string r timestamp nonce =
    join_lines (to_upper_case r.method ∷ r.path ∷ timestamp ∷ nonce ∷ body_or_empty r.body ∷ [])

unfoldable pub assert_config : SigningConfig → Result SigningError (Unit {0})
assert_config config = do
  throw_if (is_empty config.key_id || every is_space config.key_id) no_key_id
  throw_if (is_empty config.secret) no_secret

-- One more character in front of the first part.
abbrev pub onto_first_part : ℕ → List Text → List Text
onto_first_part c [] = (c ∷ []) ∷ []
onto_first_part c (p ∷ ps) = (c ∷ p) ∷ ps

-- `text.split(" ")`.
unfoldable pub split_spaces : Text → List Text
split_spaces [] = [] ∷ []
split_spaces (c ∷ cs) =
    let rest = split_spaces cs in if c == space then [] ∷ rest else onto_first_part c rest

-- `const [algorithm, provided] = text.split(" ", 2)`, and the two tests of them: what was provided.
unfoldable pub provided_of : List Text → Option Text
provided_of (a ∷ p ∷ _) = if a == algorithm && not (is_empty p) then some p else none
provided_of _ = none

-- `Math.abs(a - b)`.
abbrev pub distance : ℕ → ℕ → ℕ
distance a b = if leb a b then b - a else a - b

-- The test of a timestamp, with `tolerance` in seconds: `Number` of a text of digits is written
-- out, and `other` is the test of any other text (a sign, a fraction, an exponent or no number).
unfoldable pub is_recent : (ℕ → ℕ → Text → Bool) → ℕ → ℕ → Text → Bool
is_recent other tolerance seconds timestamp =
    if all_digits timestamp
    then leb (distance seconds (big_int timestamp)) tolerance
    else other tolerance seconds timestamp

module _ (digest : Text → Text → List ℕ) (to_base64 : List ℕ → Text) where
  -- The signature of a canonical string: HMAC-SHA256 under the secret, in base64.
  abbrev pub signature_of : Text → Text → Text
  signature_of secret canonical = to_base64 (digest secret canonical)

  unfoldable pub signed_headers : ℕ → Text → SigningConfig → Request → SignedHeaders
  signed_headers now nonce config r =
      let timestamp = to_string (now / 1000) in
      record {
        key_id = config.key_id;
        timestamp = timestamp;
        nonce = nonce;
        signature =
            algorithm
            ++ space ∷ signature_of config.secret (canonical_request_string r timestamp nonce);
      }

  -- `signFacilitatorRequest`, where the clock reads `now` milliseconds and the nonce is drawn as
  -- `nonce`.
  unfoldable pub sign_facilitator_request :
      ℕ → Text → SigningConfig → Request → Result SigningError SignedHeaders
  sign_facilitator_request now nonce config r =
      assert_config config >> ok (signed_headers now nonce config r)

  -- `verifyFacilitatorRequest`.
  unfoldable pub verify_facilitator_request :
      (ℕ → ℕ → Text → Bool) → ℕ → ℕ → Text → SignedHeaders → Request → Bool
  verify_facilitator_request other tolerance now secret h r =
      elim (provided_of (split_spaces h.signature)) [
        | none ↦ false
        | some provided ↦
            is_recent other tolerance (now / 1000) h.timestamp
            && timing_safe_equal
                (signature_of secret (canonical_request_string r h.timestamp h.nonce)) provided
      ]
