-- ===== src/Untrusted/Unclosable.antt =====
-- src/x402-untrusted.ts: which texts of a sanitised text could end a fence.
use vellar_sdk.Prelude.{
  ℕ, ◌<◌, zero, suc, ◌-◌, Bool, true, false, not, [], ◌∷◌, ◌++◌, Option, none, some, ◌≡◌, refl, ◌≢◌,
  All, every, is_empty, length, ◌==◌, nat_eq, codes, leb, ltb, arith, Bool-cases, Option-cases, inl,
  inr,
}
use vellar_sdk.RequestAuth.Compare.{Text}
use vellar_sdk.Payer.Output.{starts_with}
use vellar_sdk.Payer.Output.Censors.{includes, includes-stop}
use vellar_sdk.Payer.Output.Emitted.{too_long}
use vellar_sdk.Tokens.{is_space}
use vellar_sdk.Untrusted.Marker.{
  EndMarker, IsMarker, marker_text, marker_text-append, fence_at-marker, marker-without,
  length-marker,
}
use vellar_sdk.Untrusted.{
  is_word_character, removed_fence_marker, units, text_length, slice, clamp, fence_at,
  remove_fences, strip, to_line, SanitizeOptions, sanitize_untrusted,
}

starts_with-parts : (s t : Text) → starts_with s t ≡ true → (u : Text) × (t ≡ s ++ u)
starts_with-parts [] t h = (t, refl)
starts_with-parts (x ∷ xs) [] h = cc h
starts_with-parts (x ∷ xs) (c ∷ cs) h = elim (Bool-cases (x == c)) [
  | inl same ↦
      let (u, e) = starts_with-parts xs cs (rw same at h) in
      let e1 : x ≡ c = (nat_eq.same_iff x c).0 same in (u, cc (e, e1))
  | inr differs ↦ cc (rw differs at h)
]

pub without : (z : ℕ) (s : Text) → every (λ c. not (c == z)) s ≡ true → All (λ c. c ≢ z) s
without z [] h = tt
without z (c ∷ cs) h = (ground (arith, h), without z cs (ground (arith, h)))

starts_with-slice :
    (s : Text) (n : ℕ) (t : Text) → starts_with s (slice n t) ≡ true → starts_with s t ≡ true
unfolding slice
starts_with-slice [] n t h = refl
starts_with-slice (x ∷ xs) n [] h = h
starts_with-slice (x ∷ xs) n (c ∷ cs) h = elim (Bool-cases (leb (units c) n)) [
  | inl fits ↦
      let back = starts_with-slice xs (n - units c) cs in
      let there = rw (fits, slice) at h in ground (arith, back, there)
  | inr over ↦ cc (rw (over, slice) at h)
]

slice-fits :
    (n c : ℕ) (cs : Text) → leb (units c) n ≡ true → slice n (c ∷ cs) ≡ c ∷ slice (n - units c) cs
unfolding slice
slice-fits n c cs fits = rw (fits, slice) refl

slice-nil : (n : ℕ) → slice n [] ≡ []
unfolding slice
slice-nil n = refl

slice-over : (n c : ℕ) (cs : Text) → leb (units c) n ≡ false → slice n (c ∷ cs) ≡ []
unfolding slice
slice-over n c cs over = rw (over, slice) refl

absent-cons :
    (s : Text) (c : ℕ) (t u : Text)
    → (starts_with s (c ∷ u) ≡ true → starts_with s (c ∷ t) ≡ true)
    → starts_with s (c ∷ t) ≡ false
    → includes s u ≡ false
    → includes s (c ∷ u) ≡ false
absent-cons s c t u back before e = elim (Bool-cases (starts_with s (c ∷ u))) [
  | inl here ↦ cc (back here, before)
  | inr later ↦ rw later e
]

includes-cons :
    (s : Text) (c : ℕ) (t : Text)
    → includes s (c ∷ t) ≡ false
    → (starts_with s (c ∷ t) ≡ false) × (includes s t ≡ false)
includes-cons s c t h = elim (Bool-cases (starts_with s (c ∷ t))) [
  | inl here ↦ cc (rw here at h)
  | inr later ↦ (later, rw later at h)
]

-- A slice has nothing in it that the text does not have.
absent-slice :
    (s : Text) (n : ℕ) (t : Text)
    → is_empty s ≡ false
    → includes s t ≡ false
    → includes s (slice n t) ≡ false
absent-slice s n [] given h = rw (slice-nil n) h
absent-slice s n (c ∷ cs) given h = elim (Bool-cases (leb (units c) n)) [
  | inl fits ↦
      let (here, later) = includes-cons s c cs h in
      let back = starts_with-slice s n (c ∷ cs) in
      rw (slice-fits n c cs fits) (
        absent-cons s c cs _ (rw (slice-fits n c cs fits) at back) here
          (absent-slice s (n - units c) cs given later))
  | inr over ↦ rw (slice-over n c cs over) given
]

module _ (m : EndMarker) (is : IsMarker m) where
  abbrev end_text : Text
  end_text = marker_text m

  absent-short : (t : Text) → length t < 28 → includes end_text t ≡ false
  absent-short t h = too_long end_text t (omega (arith, length-marker m is))

  end_text-nonempty : is_empty end_text ≡ false
  end_text-nonempty = absent-short [] (omega arith)

  absent-stop :
      (z : ℕ) (t u : Text)
      → is_word_character z ≡ false
      → is_space z ≡ false
      → includes end_text t ≡ false
      → includes end_text u ≡ false
      → includes end_text (t ++ z ∷ u) ≡ false
  absent-stop z t u o b h k = elim (Bool-cases (includes end_text (t ++ z ∷ u))) [
    | inl there ↦ elim (includes-stop z end_text t u (marker-without z m o b is) there) [
      | inl before ↦ cc (before, h)
      | inr after ↦ cc (after, k)
    ]
    | inr absent ↦ absent
  ]

  absent-clamp :
      (max_chars : Option ℕ) (t : Text)
      → includes end_text t ≡ false
      → includes end_text (clamp max_chars t) ≡ false
  unfolding clamp
  absent-clamp none t h = h
  absent-clamp (some n) t h = elim (Bool-cases (ltb n (text_length t))) [
    | inl over ↦
        let cut = absent-slice end_text n t end_text-nonempty h in
        let note = absent-short (codes "[clamped]") (omega arith) in
        rw over (absent-stop 8230 (slice n t) (codes "[clamped]") refl refl cut note)
    | inr fits ↦ rw fits h
  ]

module _ (is_format is_dash : ℕ → Bool) where
  -- What is left of the fences that are replaced.
  abbrev Cleaned : ℕ → Text → Text
  Cleaned = remove_fences is_format is_dash

  Cleaned-match :
      (c : ℕ) (cs rest : Text)
      → fence_at is_format is_dash (c ∷ cs) ≡ some rest
      → Cleaned zero (c ∷ cs) ≡ removed_fence_marker ++ Cleaned (length cs - length rest) cs
  unfolding remove_fences
  Cleaned-match c cs rest e = rw (e, remove_fences) refl

  Cleaned-none :
      (c : ℕ) (cs : Text)
      → fence_at is_format is_dash (c ∷ cs) ≡ none
      → Cleaned zero (c ∷ cs) ≡ c ∷ Cleaned zero cs
  unfolding remove_fences
  Cleaned-none c cs e = rw (e, remove_fences) refl

  Cleaned-nil : (skip : ℕ) → Cleaned skip [] ≡ []
  unfolding remove_fences
  Cleaned-nil zero = refl
  Cleaned-nil (suc skip) = refl

  Cleaned-skip : (c skip : ℕ) (cs : Text) → Cleaned (suc skip) (c ∷ cs) ≡ Cleaned skip cs
  unfolding remove_fences
  Cleaned-skip c skip cs = refl

  starts_with-Cleaned :
      (s t : Text)
      → All (λ c. c ≢ b'[') s
      → starts_with s (Cleaned zero t) ≡ true
      → starts_with s t ≡ true
  starts_with-Cleaned [] t h e = refl
  starts_with-Cleaned (x ∷ xs) [] h e = rw (Cleaned-nil zero) at e
  starts_with-Cleaned (x ∷ xs) (c ∷ cs) (h, hs) e =
      elim (Option-cases (fence_at is_format is_dash (c ∷ cs))) [
        | inl plain ↦
            let back = starts_with-Cleaned xs cs hs in
            let there = rw (Cleaned-none c cs plain) at e in ground (arith, back, there)
        | inr (rest, found) ↦
            let there = rw (Cleaned-match c cs rest found) at e in ground (arith, h, there)
      ]

module _ (is_format is_dash : ℕ → Bool) (upper : is_dash b'E' ≡ false)
    (lower : is_dash b'e' ≡ false) (m : EndMarker) (is : IsMarker m) where
  -- Where nothing is replaced, no end of a fence begins.
  no_end_here :
      (c : ℕ) (cs : Text)
      → fence_at is_format is_dash (c ∷ cs) ≡ none
      → starts_with (marker_text m) (c ∷ cs) ≡ false
  no_end_here c cs plain = elim (Bool-cases (starts_with (marker_text m) (c ∷ cs))) [
    | inl here ↦
        let (u, e) = starts_with-parts (marker_text m) (c ∷ cs) here in
        let (r, found) = fence_at-marker is_format is_dash upper lower m u is in
        cc (plain, found, e, marker_text-append m u)
    | inr absent ↦ absent
  ]

  absent-marker :
      (u : Text)
      → includes (marker_text m) u ≡ false
      → includes (marker_text m) (removed_fence_marker ++ u) ≡ false
  absent-marker u h =
      absent-stop m is b']' (codes "[removed fence-like text") u refl refl
        (absent-short m is (codes "[removed fence-like text") (omega arith)) h

  Cleaned-absent :
      (skip : ℕ) (t : Text) → includes (marker_text m) (Cleaned is_format is_dash skip t) ≡ false
  Cleaned-absent skip [] = rw (Cleaned-nil is_format is_dash skip) (end_text-nonempty m is)
  Cleaned-absent (suc skip) (c ∷ cs) =
      rw (Cleaned-skip is_format is_dash c skip cs) (Cleaned-absent skip cs)
  Cleaned-absent zero (c ∷ cs) = elim (Option-cases (fence_at is_format is_dash (c ∷ cs))) [
    | inl plain ↦
        let kept = Cleaned-none is_format is_dash c cs plain in
        let back =
          starts_with-Cleaned is_format is_dash (marker_text m) (c ∷ cs)
            (marker-without b'[' m refl refl is) in
        rw kept (
          absent-cons (marker_text m) c cs (Cleaned is_format is_dash zero cs) (rw kept at back)
            (no_end_here c cs plain) (Cleaned-absent zero cs))
    | inr (r, found) ↦
        rw (Cleaned-match is_format is_dash c cs r found)
          (absent-marker _ (Cleaned-absent (length cs - length r) cs))
  ]

  -- If no letter E is a dash: whatever a seller writes and whatever the options, the sanitised text
  -- holds no END UNTRUSTED RESOURCE DATA with white space after each word, in any case of its letters
  -- and with any white space, by which a fence with some nonce would end.
  pub sanitize_untrusted-IsUnclosable :
      (opts : SanitizeOptions) (text : Text)
      → includes (marker_text m) (sanitize_untrusted is_format is_dash opts text) ≡ false
  unfolding sanitize_untrusted
  sanitize_untrusted-IsUnclosable opts text =
      absent-clamp m is opts.max_chars
        (remove_fences is_format is_dash zero
          (to_line is_format is_dash opts (strip is_format is_dash text)))
        (Cleaned-absent zero (to_line is_format is_dash opts (strip is_format is_dash text)))
