-- ===== src/Signer/Sign/Audit.antt =====
-- src/x402-signer.ts: what a signature covers, and what the audit hook is told.
use vellar_sdk.Prelude.{
  ℕ, String, true, false, some, List, [], ◌∷◌, Result, ok, err, ◌≡◌, refl, ap, sym, ◌∙◌, ◌⊎◌, inl,
  inr, arith, eq_iff, string_eq, Bool-cases, Option-cases, Result-cases, >>=-eq-ok, ok-eq,
}
use vellar_sdk.Signer.Entry.{
  Entry, Credentials, address_credentials, other_credentials, SignerKey, Signature,
}
use vellar_sdk.Signer.Sign.{
  SignError, SignerActionEvent, authorize, deny, hook_failed, SignerConfig, Signing, Keyed,
  with_expiration, with_signature, signature_map, keyed_policies, parse_entry, ceremony,
  payload_for, assert_entry_address, sign_entry, sign_auth_entry, denied,
}

-- The newest event says what the call came to, and every call fires one.
abbrev pub IsAudited :
    SignerConfig → String → Result SignError String → List SignerActionEvent → Type 0
IsAudited config network (ok signed) log = log ≡ authorize config.address network ∷ []
IsAudited config network (err e) log =
    (cause : SignError) × ((log ≡ deny config.address network cause ∷ [])
      ⊎ (log ≡ deny config.address network cause ∷ authorize config.address network ∷ []))

module _ {V : Type 0} (s : Signing V) (config : SignerConfig) (xdr network : String)
    (expiration : ℕ) where
  abbrev Signed : Result SignError String × List SignerActionEvent
  Signed = sign_auth_entry s config xdr network expiration

  signed_err :
      (e : SignError)
      → sign_entry s config xdr network expiration ≡ err e
      → Signed ≡ (err (denied s config network e), deny config.address network e ∷ [])
  unfolding sign_auth_entry
  signed_err e h = ground arith

  signed_ok :
      (signed : String)
      → sign_entry s config xdr network expiration ≡ ok signed
      → s.hook_rejects (authorize config.address network) ≡ false
      → Signed ≡ (ok signed, authorize config.address network ∷ [])
  unfolding sign_auth_entry
  signed_ok signed h accepts = ground arith

  signed_unheard :
      (signed : String)
      → sign_entry s config xdr network expiration ≡ ok signed
      → s.hook_rejects (authorize config.address network) ≡ true
      → Signed ≡ (
        err (denied s config network hook_failed),
        deny config.address network hook_failed ∷ authorize config.address network ∷ [],
      )
  unfolding sign_auth_entry
  signed_unheard signed h rejects = ground arith

  -- Every call of a signer is audited: one that returns a signature has fired just the event that
  -- authorizes it, and the last event of one that throws is a denial.
  pub sign_auth_entry-IsAudited : IsAudited config network Signed.0 Signed.1
  sign_auth_entry-IsAudited = elim (Result-cases (sign_entry s config xdr network expiration)) [
    | inl (e, h) ↦ rw (signed_err e h) (e, inl refl)
    | inr (signed, h) ↦ elim (Bool-cases (s.hook_rejects (authorize config.address network))) [
      | inl rejects ↦ rw (signed_unheard signed h rejects) (hook_failed, inr refl)
      | inr accepts ↦ rw (signed_ok signed h accepts) refl
    ]
  ]

  -- What a signature covers.
  pub record Covers (signed : String) : Type 0 where
    pub entry : Entry V
    pub parsed : s.from_xdr xdr ≡ some entry
    pub old : ℕ
    pub replaced : List (SignerKey × Signature)
    pub own_wallet : entry.credentials ≡ address_credentials config.address old replaced
    pub key : SignerKey × Signature
    pub keyed : List Keyed
    pub policies_parse : keyed_policies s config config.policies ≡ ok keyed
    pub produced :
        s.produce (s.payload_hash (with_expiration expiration entry) expiration network) ≡ some key
    pub printed :
        signed
        ≡ s.to_xdr (record {
          credentials =
              address_credentials config.address expiration (signature_map s config key keyed);
          root_invocation = entry.root_invocation;
        })

  entry_signed :
      (signed : String)
      → Signed.0 ≡ ok signed
      → sign_entry s config xdr network expiration ≡ ok signed
  entry_signed signed e = elim (Result-cases (sign_entry s config xdr network expiration)) [
    | inl (x, h) ↦ cc (signed_err x h)
    | inr (made, h) ↦ elim (Bool-cases (s.hook_rejects (authorize config.address network))) [
      | inl rejects ↦ cc (signed_unheard made h rejects)
      | inr accepts ↦ let k = signed_ok made h accepts in ground arith
    ]
  ]

  own_wallet-ok :
      (entry : Entry V)
      → assert_entry_address entry config.address ≡ ok tt
      → (old : ℕ) × (replaced : List (SignerKey × Signature)) × (entry.credentials
          ≡ address_credentials config.address old replaced)
  unfolding assert_entry_address
  own_wallet-ok entry h = by_credentials entry.credentials refl
    where
      by_credentials :
          (c : Credentials)
          → entry.credentials ≡ c
          → (old : ℕ) × (replaced : List (SignerKey × Signature)) × (entry.credentials
              ≡ address_credentials config.address old replaced)
      by_credentials (other_credentials name) e = cc (rw (e, assert_entry_address) at h)
      by_credentials (address_credentials address old replaced) e =
          let passes = rw (e, assert_entry_address) at h in
          let same : address ≡ config.address = ground (arith, eq_iff address config.address) in
          (old, replaced, e ∙ ap (λ a. address_credentials a old replaced) same)

  payload-ok :
      (entry : Entry V) (old : ℕ) (replaced : List (SignerKey × Signature))
      → entry.credentials ≡ address_credentials config.address old replaced
      → payload_for s config entry network expiration
        ≡ ok (
          with_expiration expiration entry,
          s.payload_hash (with_expiration expiration entry) expiration network,
        )
  payload-ok entry old replaced e = ground arith

  parsed-ok : (entry : Entry V) → parse_entry s config xdr ≡ ok entry → s.from_xdr xdr ≡ some entry
  parsed-ok entry h = elim (Option-cases (s.from_xdr xdr)) [
    | inl missing ↦ cc (rw (missing, parse_entry) at h)
    | inr (e, there) ↦ let same = rw (there, parse_entry) at h in ground arith
  ]

  ceremony-ok :
      (payload : String) (key : SignerKey × Signature)
      → ceremony s config payload ≡ ok key
      → s.produce payload ≡ some key
  ceremony-ok payload key h = elim (Option-cases (s.produce payload)) [
    | inl missing ↦ cc (rw (missing, ceremony) at h)
    | inr (k, there) ↦ let same = rw (there, ceremony) at h in ground arith
  ]

  -- The links of the chain, each with its result.
  links :
      (signed : String) (entry : Entry V) (dated : Entry V × String) (key : SignerKey × Signature)
      (keyed : List Keyed)
      → parse_entry s config xdr ≡ ok entry
      → assert_entry_address entry config.address ≡ ok tt
      → payload_for s config entry network expiration ≡ ok dated
      → ceremony s config dated.1 ≡ ok key
      → keyed_policies s config config.policies ≡ ok keyed
      → ◌≡◌ {A = Result SignError String}
          (ok (s.to_xdr (with_signature (signature_map s config key keyed) dated.0)))
          (ok signed)
      → Covers signed
  links signed entry dated key keyed parse own payload made policies same =
      let (old, replaced, creds) = own_wallet-ok entry own in
      let at_dated : dated ≡ (
        with_expiration expiration entry,
        s.payload_hash (with_expiration expiration entry) expiration network,
      ) =
        ok-eq (sym payload ∙ payload-ok entry old replaced creds) in
      record {
        entry = entry;
        parsed = parsed-ok entry parse;
        old = old;
        replaced = replaced;
        own_wallet = creds;
        key = key;
        keyed = keyed;
        policies_parse = policies;
        produced = sym (ap (λ d. s.produce d.1) at_dated) ∙ ceremony-ok dated.1 key made;
        printed =
            ok-eq (sym same)
            ∙ ap (λ d. s.to_xdr (with_signature (signature_map s config key keyed) d.0)) at_dated
            ∙ ap
                (λ c. s.to_xdr (
                  with_signature (signature_map s config key keyed)
                    (with_expiration expiration (record entry { credentials = c }))))
                creds;
      }

  -- A signer that returns a signature has parsed the entry, which has address credentials of its own
  -- wallet; the key signed the hash of the entry with the new expiration; and what is returned is
  -- that entry, its invocation unchanged, with a map of the key's signature and the policies.
  pub sign_auth_entry-Covers : (signed : String) → Signed.0 ≡ ok signed → Covers signed
  unfolding sign_entry
  sign_auth_entry-Covers signed e =
      let (entry, parsed, h₁) = >>=-eq-ok (parse_entry s config xdr) _ (entry_signed signed e) in
      let (u, own, h₂) = >>=-eq-ok (assert_entry_address entry config.address) _ h₁ in
      let (dated, at_dated, h₃) = >>=-eq-ok (payload_for s config entry network expiration) _ h₂ in
      let (key, made, h₄) = >>=-eq-ok (ceremony s config dated.1) _ h₃ in
      let (keyed, parse, h₅) = >>=-eq-ok (keyed_policies s config config.policies) _ h₄ in
      links signed entry dated key keyed parsed own at_dated made parse h₅
