-- ===== src/RequestAuth/Wrapped.antt =====
-- src/x402-request-auth.ts: createSignedFetch. What `fetchImpl` does with the request is its own; the
-- path of a URL is a parameter, which is none where `new URL` throws.
use vellar_sdk.Prelude.{
  ℕ, ◌+◌, ◌/◌, ◌≤◌, Bool, true, false, ◌||◌, List, [], ◌∷◌, Option, none, some, String, ◌≡◌, refl,
  sym, ap, Result, ok, err, ◌>>=◌, >>=-eq-ok, ok-eq, codes, ◌==◌, string_eq, if◌then◌else◌,
  Bool-cases, inl, inr, eq_iff, arith,
}
use mathlib.Core.Path.{subst}
use vellar_sdk.RequestAuth.Compare.{Text}
use vellar_sdk.RequestAuth.Verify.{AreSignatures}
use vellar_sdk.RequestAuth.Signed.{sign-headers, signed-verify}
use vellar_sdk.RequestAuth.{
  SigningConfig, Request, SignedHeaders, SigningError, invalid_url, sign_facilitator_request,
  verify_facilitator_request,
}

abbrev pub Headers : Type 0
Headers = List (String × Text)

-- `init.headers`: none, an object of headers by their names, or an instance of `Headers`.
pub data HeadersInit : Type 0 where
  no_headers : HeadersInit
  object instance_of : Headers → HeadersInit

-- `init.body`: none, a text, or anything else (a stream, bytes, a form).
pub data FetchBody : Type 0 where
  no_body : FetchBody
  text : Text → FetchBody
  other_body : ℕ → FetchBody

pub record FetchInit : Type 0 where
  pub method : Option Text
  pub headers : HeadersInit
  pub body : FetchBody

-- What `fetchImpl` is called with.
pub record Sent : Type 0 where
  pub url : Text
  pub method : Option Text
  pub headers : Headers
  pub body : FetchBody

unfoldable pub header : String → Headers → Option Text
header name [] = none
header name ((k, v) ∷ hs) = if k == name then some v else header name hs

unfoldable pub set_header : String → Text → Headers → Headers
set_header name v [] = (name, v) ∷ []
set_header name v ((k, w) ∷ hs) = if k == name then (k, v) ∷ hs else (k, w) ∷ set_header name v hs

-- `...(init.headers ?? {})`: an instance of `Headers` has no properties of its own.
abbrev pub spread : HeadersInit → Headers
spread no_headers = []
spread (object hs) = hs
spread (instance_of hs) = []

-- `...signedHeaders`.
unfoldable pub with_signed : SignedHeaders → Headers → Headers
with_signed h hs = set_header "X-Vellar-Signature" h.signature (
    set_header "X-Vellar-Nonce" h.nonce
      (set_header "X-Vellar-Timestamp" h.timestamp (set_header "X-Vellar-Key-Id" h.key_id hs)))

abbrev pub text_of : FetchBody → Text
text_of no_body = []
text_of (text t) = t
text_of (other_body b) = []

abbrev pub method_of : Option Text → Text
method_of none = codes "GET"
method_of (some m) = m

-- The request that is signed.
abbrev pub request_of : FetchInit → Text → Request
request_of init path = record {
  method = method_of init.method;
  path = path;
  body = some (text_of init.body);
}

abbrev pub path_or_throw : Option Text → Result SigningError Text
path_or_throw none = err invalid_url
path_or_throw (some path) = ok path

module _ (digest : Text → Text → List ℕ) (to_base64 : List ℕ → Text)
    (path_of : Text → Option Text) where
  unfoldable pub signed_fetch :
      ℕ → Text → SigningConfig → Text → FetchInit → Result SigningError Sent
  signed_fetch now nonce config url init = do
    path ← path_or_throw (path_of url)
    h ← sign_facilitator_request digest to_base64 now nonce config (request_of init path)
    ok (record {
      url = url;
      method = init.method;
      headers = with_signed h (spread init.headers);
      body = init.body;
    })

header-set : (name : String) (v : Text) (hs : Headers) → header name (set_header name v hs) ≡ some v
unfolding header set_header
header-set name v [] = let found = (eq_iff name name).1 refl in rw found refl
header-set name v ((k, w) ∷ hs) = elim (Bool-cases (k == name)) [
  | inl found ↦ rw (found, header, found) refl
  | inr other ↦ rw (other, header, other) (header-set name v hs)
]

header-set_other :
    (name k : String) (v : Text) (hs : Headers)
    → (k == name) ≡ false
    → header name (set_header k v hs) ≡ header name hs
unfolding header set_header
header-set_other name k v [] n = rw n refl
header-set_other name k v ((j, w) ∷ hs) n = elim (Bool-cases (j == k)) [
  | inl found ↦
      let apart : (j == name) ≡ false =
        subst (λ (x : String). (x == name) ≡ false) (sym ((eq_iff j k).0 found)) n in
      rw (found, header, apart) refl
  | inr other ↦ elim (Bool-cases (j == name)) [
    | inl here ↦ rw (other, header, here) refl
    | inr there ↦ rw (other, header, there) (header-set_other name k v hs n)
  ]
]

-- What the facilitator reads: the four headers of the request, where they are there.
abbrev pub Carries : Headers → SignedHeaders → Type 0
Carries hs h =
    (header "X-Vellar-Key-Id" hs ≡ some h.key_id)
    × (header "X-Vellar-Timestamp" hs ≡ some h.timestamp)
    × (header "X-Vellar-Nonce" hs ≡ some h.nonce)
    × (header "X-Vellar-Signature" hs ≡ some h.signature)

abbrev pub is_signing_header : String → Bool
is_signing_header name =
    "X-Vellar-Key-Id" == name
    || "X-Vellar-Timestamp" == name
    || "X-Vellar-Nonce" == name
    || "X-Vellar-Signature" == name

module _ (h : SignedHeaders) (hs : Headers) where
  abbrev first : Headers
  first = set_header "X-Vellar-Key-Id" h.key_id hs

  abbrev second : Headers
  second = set_header "X-Vellar-Timestamp" h.timestamp first

  abbrev third : Headers
  third = set_header "X-Vellar-Nonce" h.nonce second

  with_signed-Carries : Carries (with_signed h hs) h
  unfolding with_signed
  with_signed-Carries = (
    rw
        (
          header-set_other "X-Vellar-Key-Id" "X-Vellar-Signature" h.signature third refl,
          header-set_other "X-Vellar-Key-Id" "X-Vellar-Nonce" h.nonce second refl,
          header-set_other "X-Vellar-Key-Id" "X-Vellar-Timestamp" h.timestamp first refl,
        )
        (header-set "X-Vellar-Key-Id" h.key_id hs),
    rw
        (
          header-set_other "X-Vellar-Timestamp" "X-Vellar-Signature" h.signature third refl,
          header-set_other "X-Vellar-Timestamp" "X-Vellar-Nonce" h.nonce second refl,
        )
        (header-set "X-Vellar-Timestamp" h.timestamp first),
    rw (header-set_other "X-Vellar-Nonce" "X-Vellar-Signature" h.signature third refl)
        (header-set "X-Vellar-Nonce" h.nonce second),
    header-set "X-Vellar-Signature" h.signature third,
  )

  with_signed-other :
      (name : String)
      → is_signing_header name ≡ false
      → header name (with_signed h hs) ≡ header name hs
  unfolding with_signed
  with_signed-other name n =
      rw
        (
          header-set_other name "X-Vellar-Signature" h.signature third (ground (arith, n)),
          header-set_other name "X-Vellar-Nonce" h.nonce second (ground (arith, n)),
          header-set_other name "X-Vellar-Timestamp" h.timestamp first (ground (arith, n)),
        )
        (header-set_other name "X-Vellar-Key-Id" h.key_id hs (ground (arith, n)))

found_path : (o : Option Text) (path : Text) → path_or_throw o ≡ ok path → o ≡ some path
found_path none path e = cc e
found_path (some p) path e = ap some (ok-eq e)

module _ (digest : Text → Text → List ℕ) (to_base64 : List ℕ → Text)
    (good : AreSignatures digest to_base64) (other : ℕ → ℕ → Text → Bool)
    (path_of : Text → Option Text) where
  -- The headers are accepted, within the tolerance, for the method, the path and the body.
  abbrev pub IsVerifiable : ℕ → SigningConfig → SignedHeaders → Request → Type 0
  IsVerifiable sent config h r =
      (tolerance received : ℕ)
      → sent / 1000 ≤ received / 1000 + tolerance
      → received / 1000 ≤ sent / 1000 + tolerance
      → verify_facilitator_request digest to_base64 other tolerance received config.secret h r
        ≡ true

  -- A signed fetch sends the caller's URL, method and body, and the headers that a facilitator accepts
  -- for the method, the path of the URL and the body, where that is a text or none. No other header
  -- of an object of headers is lost or changed.
  pub signed_fetch-IsSigned :
      (sent : ℕ) (nonce : Text) (config : SigningConfig) (url : Text) (init : FetchInit)
      (out : Sent)
      → signed_fetch digest to_base64 path_of sent nonce config url init ≡ ok out
      → (path : Text) × (h : SignedHeaders) × (path_of url ≡ some path)
        × (out.url ≡ url)
        × (out.method ≡ init.method)
        × (out.body ≡ init.body)
        × Carries out.headers h
        × IsVerifiable sent config h (request_of init path)
        × ((name : String)
            → is_signing_header name ≡ false
            → header name out.headers ≡ header name (spread init.headers))
  unfolding signed_fetch
  signed_fetch-IsSigned sent nonce config url init out e =
      let (path, found, e1) = >>=-eq-ok (path_or_throw (path_of url)) _ e in
      let (h, signed, e2) =
        >>=-eq-ok
          (sign_facilitator_request digest to_base64 sent nonce config (request_of init path)) _
          e1 in
      let same = sym (ok-eq e2) in
      (
        path,
        h,
        found_path (path_of url) path found,
        ap (λ (x : Sent). x.url) same,
        ap (λ (x : Sent). x.method) same,
        ap (λ (x : Sent). x.body) same,
        subst (λ (x : Sent). Carries x.headers h) (sym same)
            (with_signed-Carries h (spread init.headers)),
        λ tolerance received early late.
            rw
              (sign-headers digest to_base64 good other sent nonce config (request_of init path) h
                signed)
              (signed-verify digest to_base64 good other tolerance sent received nonce config
                (request_of init path) early late),
        λ name n.
            subst (λ (x : Sent). header name x.headers ≡ header name (spread init.headers))
              (sym same) (with_signed-other h (spread init.headers) name n),
      )
