-- ===== src/RequestAuth/Verify.antt =====
-- src/x402-request-auth.ts: which headers are accepted, and for which requests.
use vellar_sdk.Prelude.{
  ℕ, ◌+◌, ◌/◌, ◌≤◌, Bool, true, false, not, ◌&&◌, List, [], ◌∷◌, ◌++◌, some, ◌≡◌, refl, sym, ap,
  ◌≢◌, ◌⊎◌, ◌↔◌, All, Bool-cases, Option-cases, inl, inr, is_empty, ◌==◌, all_digits, big_int,
  arith, nat_eq,
}
use mathlib.Core.List.{append-nil}
use mathlib.Core.Path.{subst}
use vellar_sdk.RequestAuth.Compare.{
  Text, text_eq, same_text_iff, AreCodes, timing_safe_equal-same, timing_safe_equal_iff,
}
use vellar_sdk.RequestAuth.{
  Request, SignedHeaders, algorithm, space, split_spaces, provided_of, onto_first_part,
  signature_of, canonical_request_string, is_recent, verify_facilitator_request,
}

abbrev pub HasNoSpace : Text → Type 0
HasNoSpace = All (λ c. c ≢ space)

-- Nothing, or a space and more.
abbrev pub EndsWord : Text → Type 0
EndsWord [] = Unit
EndsWord (c ∷ cs) = c ≡ space

split_spaces-word :
    (p rest : Text)
    → HasNoSpace p
    → EndsWord rest
    → (ps : List Text) × (split_spaces (p ++ rest) ≡ p ∷ ps)
unfolding split_spaces
split_spaces-word [] [] h k = ([], refl)
split_spaces-word [] (c ∷ cs) h k =
    let found : (c == space) ≡ true = ground arith in (split_spaces cs, rw found refl)
split_spaces-word (x ∷ p) rest h k =
    let (ps, e) = split_spaces-word p rest h.1 k in
    let other : (x == space) ≡ false = ground (arith, h.0) in (ps, rw (other, e) refl)

split_spaces-space :
    (p rest : Text) → HasNoSpace p → split_spaces (p ++ space ∷ rest) ≡ p ∷ split_spaces rest
unfolding split_spaces
split_spaces-space [] rest h = refl
split_spaces-space (x ∷ p) rest h =
    let other : (x == space) ≡ false = ground (arith, h.0) in
    rw (other, split_spaces-space p rest h.1) refl

-- The first of the parts.
abbrev First : Text → List Text → Type 0
First t [] = ⊥
First t (p ∷ ps) =
    HasNoSpace p
    × (((t ≡ p) × (ps ≡ [])) ⊎ ((rest : Text) × (t ≡ p ++ space ∷ rest) × (ps ≡ split_spaces rest)))

onto_first_part-First :
    (c : ℕ) (t : Text) (ps : List Text)
    → c ≢ space
    → First t ps
    → First (c ∷ t) (onto_first_part c ps)
onto_first_part-First c t [] n h = elim h [ ]
onto_first_part-First c t (p ∷ ps) n (h, inl (e, k)) = ((n, h), inl (ap (λ z. c ∷ z) e, k))
onto_first_part-First c t (p ∷ ps) n (h, inr (rest, e, k)) =
    ((n, h), inr (rest, ap (λ z. c ∷ z) e, k))

split_spaces-First : (t : Text) → First t (split_spaces t)
unfolding split_spaces
split_spaces-First [] = (tt, inl (refl, refl))
split_spaces-First (c ∷ t) = elim (Bool-cases (c == space)) [
  | inl found ↦ rw found (tt, inr (t, ground arith, refl))
  | inr other ↦
      rw other (onto_first_part-First c t (split_spaces t) (ground arith) (split_spaces-First t))
]

-- A text that `split(" ")` leaves whole, and that is not empty.
abbrev pub IsWord : Text → Type 0
IsWord p = (is_empty p ≡ false) × HasNoSpace p

-- A header with this signature: what follows a second space is not read.
abbrev pub Provides : Text → Text → Type 0
Provides h p = (rest : Text) × (h ≡ algorithm ++ space ∷ p ++ rest) × EndsWord rest

algorithm-HasNoSpace : HasNoSpace algorithm
algorithm-HasNoSpace = omega arith

provided_of-word :
    (p : Text) (ps : List Text) → IsWord p → provided_of (algorithm ∷ p ∷ ps) ≡ some p
unfolding provided_of
provided_of-word p ps h = rw (h.0) refl

pub Provides-some : (h p : Text) → IsWord p → Provides h p → provided_of (split_spaces h) ≡ some p
Provides-some h p w (rest, e, k) =
    let (ps, parts) = split_spaces-word p rest w.1 k in
    rw (e, split_spaces-space algorithm (p ++ rest) algorithm-HasNoSpace, parts)
      (provided_of-word p ps w)

second-Provides :
    (h p rest : Text) (ps : List Text)
    → h ≡ algorithm ++ space ∷ rest
    → First rest (p ∷ ps)
    → Provides h p
second-Provides h p rest ps e (w, inl (k, z)) = ([], rw (append-nil p, e, k) refl, tt)
second-Provides h p rest ps e (w, inr (more, k, z)) = (space ∷ more, rw (e, k) refl, refl)

some-Provides_parts :
    (h p : Text) (parts : List Text) → First h parts → provided_of parts ≡ some p → Provides h p
unfolding provided_of
some-Provides_parts h p [] f e = cc e
some-Provides_parts h p (a ∷ []) f e = cc e
some-Provides_parts h p (a ∷ q ∷ qs) (w, inl (k, z)) e = cc z
some-Provides_parts h p (a ∷ q ∷ qs) (w, inr (rest, k, z)) e =
    elim (Bool-cases (a == algorithm && not (is_empty q))) [
      | inl good ↦
          let name : a ≡ algorithm = (same_text_iff a algorithm).0 (ground (arith, good)) in
          let same : q ≡ p = (let found = rw good at e in cc found) in
          second-Provides h p rest qs (rw (k, name) refl) (
            subst (λ x. First rest (x ∷ qs)) same
              (subst (λ ps. First rest ps) (sym z) (split_spaces-First rest)))
      | inr bad ↦ cc (rw bad at e)
    ]

pub some-Provides : (h p : Text) → provided_of (split_spaces h) ≡ some p → Provides h p
some-Provides h p e = some-Provides_parts h p (split_spaces h) (split_spaces-First h) e

AreCodes-front : (xs ys : Text) → AreCodes (xs ++ ys) → AreCodes xs
AreCodes-front [] ys h = tt
AreCodes-front (x ∷ xs) ys h = (h.0, AreCodes-front xs ys h.1)

AreCodes-back : (xs ys : Text) → AreCodes (xs ++ ys) → AreCodes ys
AreCodes-back [] ys h = h
AreCodes-back (x ∷ xs) ys h = AreCodes-back xs ys h.1

provided-AreCodes : (h p : Text) → Provides h p → AreCodes h → AreCodes p
provided-AreCodes h p (rest, e, k) codes =
    AreCodes-front p rest
      (AreCodes-back (algorithm ++ space ∷ []) (p ++ rest) (subst AreCodes e codes))

-- A timestamp within the tolerance, in seconds; one that is not a text of digits as `other` says.
abbrev pub IsRecent : (ℕ → ℕ → Text → Bool) → ℕ → ℕ → Text → Type 0
IsRecent other tolerance seconds t =
    ((all_digits t ≡ true) × (big_int t ≤ seconds + tolerance) × (seconds ≤ big_int t + tolerance))
    ⊎ ((all_digits t ≡ false) × (other tolerance seconds t ≡ true))

is_recent_iff :
    (other : ℕ → ℕ → Text → Bool) (tolerance seconds : ℕ) (t : Text)
    → (is_recent other tolerance seconds t ≡ true) ↔ IsRecent other tolerance seconds t
unfolding is_recent
is_recent_iff other tolerance seconds t = elim (Bool-cases (all_digits t)) [
  | inl digits ↦ rw digits (λ h. inl (refl, ground arith, ground arith), λ h. ground arith)
  | inr odd ↦ rw odd (λ h. inr (refl, h), λ h. ground arith)
]

-- What Web Crypto and `btoa` give: a base64 text, that is one without spaces, of 16-bit codes, and
-- that is not empty since a digest is not.
abbrev pub AreSignatures : (Text → Text → List ℕ) → (List ℕ → Text) → Type 0
AreSignatures digest to_base64 =
    (secret canonical : Text)
    → IsWord (signature_of digest to_base64 secret canonical)
      × AreCodes (signature_of digest to_base64 secret canonical)

module _ (digest : Text → Text → List ℕ) (to_base64 : List ℕ → Text)
    (good : AreSignatures digest to_base64) (other : ℕ → ℕ → Text → Bool) where
  -- The signature header carries this request's signature, and its timestamp is recent.
  abbrev pub IsAccepted : ℕ → ℕ → Text → SignedHeaders → Request → Type 0
  IsAccepted tolerance now secret h r =
      Provides h.signature
        (signature_of digest to_base64 secret (canonical_request_string r h.timestamp h.nonce))
      × IsRecent other tolerance (now / 1000) h.timestamp

  pub IsAccepted-verify :
      (tolerance now : ℕ) (secret : Text) (h : SignedHeaders) (r : Request)
      → IsAccepted tolerance now secret h r
      → verify_facilitator_request digest to_base64 other tolerance now secret h r ≡ true
  unfolding verify_facilitator_request
  IsAccepted-verify tolerance now secret h r (p, recent) =
      let canonical = canonical_request_string r h.timestamp h.nonce in
      let sig = signature_of digest to_base64 secret canonical in
      rw
        (
          verify_facilitator_request,
          Provides-some h.signature sig (good secret canonical).0 p,
          (is_recent_iff other tolerance (now / 1000) h.timestamp).1 recent,
        )
        (timing_safe_equal-same sig)

  verify-IsAccepted :
      (tolerance now : ℕ) (secret : Text) (h : SignedHeaders) (r : Request)
      → AreCodes h.signature
      → verify_facilitator_request digest to_base64 other tolerance now secret h r ≡ true
      → IsAccepted tolerance now secret h r
  unfolding verify_facilitator_request
  verify-IsAccepted tolerance now secret h r codes e =
      elim (Option-cases (provided_of (split_spaces h.signature))) [
        | inl missing ↦ cc (rw (missing, verify_facilitator_request) at e)
        | inr (p, found) ↦
            let canonical = canonical_request_string r h.timestamp h.nonce in
            let checks = rw (found, verify_facilitator_request) at e in
            let provided = some-Provides h.signature p found in
            let same =
              (timing_safe_equal_iff (signature_of digest to_base64 secret canonical) p
                  (good secret canonical).1 (provided-AreCodes h.signature p provided codes)).0
                (ground (arith, checks)) in
            (
              subst (λ q. Provides h.signature q) (sym same) provided,
              (is_recent_iff other tolerance (now / 1000) h.timestamp).0 (ground (arith, checks)),
            )
      ]

  pub verify_iff :
      (tolerance now : ℕ) (secret : Text) (h : SignedHeaders) (r : Request)
      → AreCodes h.signature
      → (verify_facilitator_request digest to_base64 other tolerance now secret h r ≡ true)
        ↔ IsAccepted tolerance now secret h r
  verify_iff tolerance now secret h r codes =
      (verify-IsAccepted tolerance now secret h r codes, IsAccepted-verify tolerance now secret h r)
