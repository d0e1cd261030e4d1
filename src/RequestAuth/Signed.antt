-- ===== src/RequestAuth/Signed.antt =====
-- src/x402-request-auth.ts: signing, then verifying.
use mathlib.Core.List.{append-nil}
use mathlib.Core.Path.{subst}
use vellar_sdk.Prelude.{
  ℕ, ◌+◌, ◌/◌, ◌≤◌, Bool, true, false, List, [], ◌∷◌, ◌++◌, some, ◌≡◌, refl, sym, ◌∙◌, ap, Option,
  ok, inl, is_empty, every, all_digits-to_string, big_int-to_string, to_string, arith, >>=-eq-ok,
  ok-eq, All-append, ◌^◌, ◌<◌,
}
use vellar_sdk.Tokens.{is_space}
use vellar_sdk.RequestAuth.Compare.{Text, AreCodes}
use vellar_sdk.RequestAuth.Canonical.{AreLines, IsSame, canonical-inject}
use vellar_sdk.RequestAuth.Verify.{
  AreSignatures, Provides, verify_iff, IsAccepted-verify, Provides-some,
}
use vellar_sdk.RequestAuth.{
  SigningConfig, Request, SignedHeaders, algorithm, space, signature_of, canonical_request_string,
  signed_headers, sign_facilitator_request, assert_config, verify_facilitator_request,
}

some-eq : {a b : Text} → ◌≡◌ {A = Option Text} (some a) (some b) → a ≡ b
some-eq h = cc

named-nonempty : (t : Text) → every is_space t ≡ false → is_empty t ≡ false
named-nonempty [] h = cc h
named-nonempty (c ∷ cs) h = refl

module _ (digest : Text → Text → List ℕ) (to_base64 : List ℕ → Text)
    (good : AreSignatures digest to_base64) (other : ℕ → ℕ → Text → Bool) where
  -- The signature that stands in the headers signed for a request.
  abbrev of_signed : ℕ → Text → SigningConfig → Request → Text
  of_signed sent nonce config r =
      signature_of digest to_base64 config.secret
        (canonical_request_string r (to_string (sent / 1000)) nonce)

  signed-Provides :
      (sent : ℕ) (nonce : Text) (config : SigningConfig) (r : Request)
      → Provides
          (signed_headers digest to_base64 sent nonce config r).signature
          (of_signed sent nonce config r)
  unfolding signed_headers
  signed-Provides sent nonce config r =
      ([], rw (append-nil (of_signed sent nonce config r)) refl, tt)

  signed-AreCodes :
      (sent : ℕ) (nonce : Text) (config : SigningConfig) (r : Request)
      → AreCodes (signed_headers digest to_base64 sent nonce config r).signature
  unfolding signed_headers
  signed-AreCodes sent nonce config r =
      All-append (λ c. c < 2 ^ 16) (algorithm ++ space ∷ []) (of_signed sent nonce config r)
        (omega arith) (good config.secret _).1

  pub signed-verify :
      (tolerance sent received : ℕ) (nonce : Text) (config : SigningConfig) (r : Request)
      → sent / 1000 ≤ received / 1000 + tolerance
      → received / 1000 ≤ sent / 1000 + tolerance
      → verify_facilitator_request digest to_base64 other tolerance received config.secret
          (signed_headers digest to_base64 sent nonce config r)
          r
        ≡ true
  unfolding signed_headers
  signed-verify tolerance sent received nonce config r early late =
      IsAccepted-verify digest to_base64 good other tolerance received config.secret _ r (
        signed-Provides sent nonce config r,
        inl (
          all_digits-to_string (sent / 1000),
          rw (big_int-to_string (sent / 1000)) early,
          rw (big_int-to_string (sent / 1000)) late,
        ),
      )

  pub sign-headers :
      (sent : ℕ) (nonce : Text) (config : SigningConfig) (r : Request) (h : SignedHeaders)
      → sign_facilitator_request digest to_base64 sent nonce config r ≡ ok h
      → h ≡ signed_headers digest to_base64 sent nonce config r
  unfolding sign_facilitator_request
  sign-headers sent nonce config r h e =
      let (u, checked, same) = >>=-eq-ok (assert_config config) _ e in sym (ok-eq same)

  -- A signature is good for one request: headers that carry a signature which was made for a request,
  -- and with which another is accepted, are those that were signed, and the requests are the same, if
  -- the two do not collide under the digest and their fields before the body are lines.
  pub verify-Signed :
      (tolerance sent received : ℕ) (nonce : Text) (config : SigningConfig) (r r' : Request)
      (h h' : SignedHeaders)
      → sign_facilitator_request digest to_base64 sent nonce config r ≡ ok h
      → h'.signature ≡ h.signature
      → (of_signed sent nonce config r
            ≡ signature_of digest to_base64 config.secret
                (canonical_request_string r' h'.timestamp h'.nonce)
          → canonical_request_string r (to_string (sent / 1000)) nonce
            ≡ canonical_request_string r' h'.timestamp h'.nonce)
      → AreLines r (to_string (sent / 1000)) nonce
      → AreLines r' h'.timestamp h'.nonce
      → verify_facilitator_request digest to_base64 other tolerance received config.secret h' r'
        ≡ true
      → IsSame r r' × (h.timestamp ≡ h'.timestamp) × (h.nonce ≡ h'.nonce)
  unfolding signed_headers
  verify-Signed tolerance sent received nonce config r r' h h' e captured no_collision lines lines'
        v =
      let same = sign-headers sent nonce config r h e in
      let theirs = canonical_request_string r' h'.timestamp h'.nonce in
      let taken : h'.signature ≡ (signed_headers digest to_base64 sent nonce config r).signature =
        captured ∙ ap (λ (x : SignedHeaders). x.signature) same in
      let (accepted, recent) =
        (verify_iff digest to_base64 good other tolerance received config.secret h' r'
            (subst AreCodes (sym taken) (signed-AreCodes sent nonce config r))).0
          v in
      let made =
        Provides-some h'.signature (of_signed sent nonce config r) (good config.secret _).0 (
          subst (λ t. Provides t (of_signed sent nonce config r)) (sym taken)
            (signed-Provides sent nonce config r)) in
      let sent_again =
        Provides-some h'.signature (signature_of digest to_base64 config.secret theirs)
          (good config.secret theirs).0 accepted in
      let (requests, times, nonces) =
        canonical-inject r r' (to_string (sent / 1000)) h'.timestamp nonce h'.nonce lines lines'
          (no_collision (some-eq (sym made ∙ sent_again))) in
      (
        requests,
        ap (λ (x : SignedHeaders). x.timestamp) same ∙ times,
        ap (λ (x : SignedHeaders). x.nonce) same ∙ nonces,
      )

  -- A request is signed if the key id is not blank and the secret not empty, and what was signed is
  -- accepted as long as the clocks differ by no more than the tolerance, in whole seconds.
  pub verify-sign :
      (sent : ℕ) (nonce : Text) (config : SigningConfig) (r : Request)
      → every is_space config.key_id ≡ false
      → is_empty config.secret ≡ false
      → (h : SignedHeaders) × (sign_facilitator_request digest to_base64 sent nonce config r ≡ ok h)
        × ((tolerance received : ℕ)
            → sent / 1000 ≤ received / 1000 + tolerance
            → received / 1000 ≤ sent / 1000 + tolerance
            → verify_facilitator_request digest to_base64 other tolerance received config.secret h r
              ≡ true)
  unfolding sign_facilitator_request assert_config
  verify-sign sent nonce config r named kept = (
    signed_headers digest to_base64 sent nonce config r,
    rw (named-nonempty config.key_id named, named, kept) refl,
    λ tolerance received. signed-verify tolerance sent received nonce config r,
  )
