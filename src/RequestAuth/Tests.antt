-- ===== src/RequestAuth/Tests.antt =====
-- src/x402-request-auth.ts: requests that are signed and verified, under a digest that is a checksum.
use vellar_sdk.Prelude.{
  ℕ, ◌+◌, ◌%◌, ◌/◌, Bool, true, false, List, [], ◌∷◌, Option, none, some, codes, ok, err, ◌≡◌, refl,
  arith, String, to_string, big_int, ◌==◌, nat_eq,
}
use vellar_sdk.RequestAuth.Compare.{
  Text, text_eq, timing_safe_equal, AreCodes, diff_from, bit_or, bit_xor,
}
use vellar_sdk.RequestAuth.Canonical.{AreLines, IsSame}
use vellar_sdk.RequestAuth.Verify.{AreSignatures}
use vellar_sdk.RequestAuth.Signed.{verify-Signed}
use vellar_sdk.RequestAuth.Wrapped.{
  FetchInit, object, instance_of, text, other_body, Sent, signed_fetch, header, set_header,
  with_signed, signed_fetch-IsSigned, Carries, is_signing_header, spread, IsVerifiable, request_of,
}
use vellar_sdk.RequestAuth.{
  SigningConfig, Request, SignedHeaders, no_key_id, signed_headers, sign_facilitator_request,
  assert_config, canonical_request_string, join_lines, verify_facilitator_request, provided_of,
  split_spaces, is_recent,
}

abbrev sum : Text → ℕ
sum [] = 0
sum (c ∷ cs) = c + sum cs

abbrev checksum : Text → Text → List ℕ
checksum secret canonical = (65 + (sum secret + sum canonical) % 26) ∷ []

abbrev as_text : List ℕ → Text
as_text bytes = bytes

abbrev never : ℕ → ℕ → Text → Bool
never tolerance seconds t = false

-- The path of a URL, which stops at a question mark.
abbrev path_of : Text → Option Text
path_of url = some (before url)
  where
    before : Text → Text
    before [] = []
    before (c ∷ cs) = let rest = before cs in elim (c == b'?') [ true ↦ [] | false ↦ c ∷ rest ]

checksum-AreSignatures : AreSignatures checksum as_text
checksum-AreSignatures secret canonical = ((refl, (omega arith, tt)), (omega arith, tt))

abbrev config : SigningConfig
config = record { key_id = codes "key"; secret = codes "s" }

abbrev settle : Request
settle = record { method = codes "post"; path = codes "/settle"; body = some (codes "{}") }

abbrev nonce : Text
nonce = codes "n1"

abbrev headers : SignedHeaders
headers = signed_headers checksum as_text 5000 nonce config settle

signs : sign_facilitator_request checksum as_text 5000 nonce config settle ≡ ok headers
unfolding sign_facilitator_request assert_config
signs = refl

refuses_blank_key :
    sign_facilitator_request checksum as_text 5000 nonce
      (record config { key_id = codes "  " })
      settle
    ≡ err no_key_id
unfolding sign_facilitator_request assert_config
refuses_blank_key = refl

AreCodes-headers : AreCodes headers.signature
unfolding signed_headers
AreCodes-headers = omega arith

abbrev received : SignedHeaders
received = record headers { key_id = codes "other" }

accepts :
    verify_facilitator_request checksum as_text never 300 9000 (codes "s") received settle ≡ true
unfolding verify_facilitator_request signed_headers provided_of split_spaces is_recent
    timing_safe_equal diff_from bit_or bit_xor canonical_request_string join_lines big_int to_string
accepts = refl

refuses_other_body :
    verify_facilitator_request checksum as_text never 300 9000
      (codes "s")
      headers
      (record settle { body = none })
    ≡ false
unfolding verify_facilitator_request signed_headers provided_of split_spaces is_recent
    timing_safe_equal diff_from bit_or bit_xor canonical_request_string join_lines big_int to_string
refuses_other_body = refl

refuses_stale :
    verify_facilitator_request checksum as_text never 300 306000 (codes "s") headers settle ≡ false
unfolding verify_facilitator_request signed_headers provided_of split_spaces is_recent
    timing_safe_equal diff_from bit_or bit_xor canonical_request_string join_lines big_int to_string
refuses_stale = refl

lines : AreLines settle (to_string (5000 / 1000)) nonce
unfolding to_string
lines = omega arith

verify-Signed_example :
    IsSame settle settle
    × (headers.timestamp ≡ received.timestamp)
    × (headers.nonce ≡ received.nonce)
unfolding signed_headers
verify-Signed_example =
    verify-Signed checksum as_text checksum-AreSignatures never 300 5000 9000 nonce config settle
      settle headers received signs refl (λ _. refl) lines lines accepts

abbrev init : FetchInit
init = record {
  method = none;
  headers = object (("Accept", codes "text") ∷ []);
  body = text (codes "{}");
}

abbrev fetched : FetchInit → Text → Sent
fetched i url = record {
  url = url;
  method = i.method;
  headers =
      with_signed (signed_headers checksum as_text 5000 nonce config (request_of i (codes "/pay")))
        (spread i.headers);
  body = i.body;
}

fetches :
    signed_fetch checksum as_text path_of 5000 nonce config (codes "/pay?id=1") init
    ≡ ok (fetched init (codes "/pay?id=1"))
unfolding signed_fetch sign_facilitator_request assert_config
fetches = refl

-- Two resources of one path carry the same signature.
query_is_not_signed :
    (fetched init (codes "/pay?id=1")).headers ≡ (fetched init (codes "/pay?id=2")).headers
query_is_not_signed = refl

-- A body of bytes is signed as an empty one.
bytes_are_not_signed :
    (fetched (record init { body = other_body 1 }) (codes "/pay")).headers
    ≡ (fetched (record init { body = other_body 2 }) (codes "/pay")).headers
bytes_are_not_signed = refl

abbrev with_instance : FetchInit
with_instance = record init { headers = instance_of (("Accept", codes "text") ∷ []) }

-- The headers of an instance of `Headers` are not sent.
instance_is_lost : header "Accept" (fetched with_instance (codes "/pay")).headers ≡ none
unfolding header with_signed set_header
instance_is_lost = refl

signed_fetch-IsSigned_example :
    (path : Text) × (h : SignedHeaders) × (path_of (codes "/pay?id=1") ≡ some path)
    × ((fetched init (codes "/pay?id=1")).url ≡ codes "/pay?id=1")
    × ((fetched init (codes "/pay?id=1")).method ≡ init.method)
    × ((fetched init (codes "/pay?id=1")).body ≡ init.body)
    × Carries (fetched init (codes "/pay?id=1")).headers h
    × IsVerifiable checksum as_text checksum-AreSignatures never path_of 5000 config h
        (request_of init path)
    × ((name : String)
        → is_signing_header name ≡ false
        → header name (fetched init (codes "/pay?id=1")).headers
          ≡ header name (spread init.headers))
signed_fetch-IsSigned_example =
    signed_fetch-IsSigned checksum as_text checksum-AreSignatures never path_of 5000 nonce config
      (codes "/pay?id=1") init (fetched init (codes "/pay?id=1")) fetches
