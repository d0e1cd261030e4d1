-- ===== src/Untrusted/Line.antt =====
-- src/x402-untrusted.ts: the line breaks and the length of metadata.
use vellar_sdk.Prelude.{
  ℕ, zero, suc, ◌+◌, ◌-◌, ◌≤◌, Bool, true, false, not, [], ◌∷◌, ◌++◌, Option, none, some, ◌≡◌, refl,
  ◌≢◌, All, All-append, every, map, length, nat_eq, leb, ltb, arith, Bool-cases, Option-cases, inl,
  inr, if◌then◌else◌,
}
use vellar_sdk.RequestAuth.Compare.{Text}
use vellar_sdk.Untrusted.{
  removed_fence_marker, is_newline_or_tab, units, text_length, slice, clamped, clamp, fence_at,
  remove_fences, strip, to_line, metadata_options, sanitize_untrusted, sanitize_metadata,
}

-- No line break in it, and no tab.
abbrev IsOneLine : Text → Type 0
IsOneLine = All (λ c. is_newline_or_tab c ≡ false)

IsOneLine-to_line : (t : Text) → IsOneLine (map (λ c. if is_newline_or_tab c then b' ' else c) t)
IsOneLine-to_line [] = tt
IsOneLine-to_line (c ∷ cs) = elim (Bool-cases (is_newline_or_tab c)) [
  | inl broken ↦ (rw broken refl, IsOneLine-to_line cs)
  | inr kept ↦ (rw (kept, kept) refl, IsOneLine-to_line cs)
]

every-IsOneLine : (t : Text) → every (λ c. not (is_newline_or_tab c)) t ≡ true → IsOneLine t
every-IsOneLine [] h = tt
every-IsOneLine (c ∷ cs) h = (ground (arith, h), every-IsOneLine cs (ground (arith, h)))

IsOneLine-slice : (n : ℕ) (t : Text) → IsOneLine t → IsOneLine (slice n t)
unfolding slice
IsOneLine-slice n [] h = tt
IsOneLine-slice n (c ∷ cs) (h, hs) = elim (Bool-cases (leb (units c) n)) [
  | inl fits ↦ rw (fits, slice) (h, IsOneLine-slice (n - units c) cs hs)
  | inr over ↦ rw (over, slice) tt
]

text_length-slice : (n : ℕ) (t : Text) → text_length (slice n t) ≤ n
unfolding slice text_length
text_length-slice n [] = omega arith
text_length-slice n (c ∷ cs) = elim (Bool-cases (leb (units c) n)) [
  | inl fits ↦
      let rest = text_length-slice (n - units c) cs in rw (fits, slice) (ground (arith, rest))
  | inr over ↦ rw (over, slice) (omega arith)
]

text_length-append : (xs ys : Text) → text_length (xs ++ ys) ≡ text_length xs + text_length ys
unfolding text_length
text_length-append [] ys = omega arith
text_length-append (x ∷ xs) ys = omega (arith, text_length-append xs ys)

clamped_length : text_length clamped ≡ 10
unfolding text_length
clamped_length = refl

text_length-clamp : (n : ℕ) (t : Text) → text_length (clamp (some n) t) ≤ n + 10
unfolding clamp
text_length-clamp n t = elim (Bool-cases (ltb n (text_length t))) [
  | inl over ↦
      let bound = text_length-slice n t in
      let sum = text_length-append (slice n t) clamped in
      rw over (omega (arith, bound, sum, clamped_length))
  | inr fits ↦ rw fits (ground arith)
]

IsOneLine-clamp : (o : Option ℕ) (t : Text) → IsOneLine t → IsOneLine (clamp o t)
unfolding clamp
IsOneLine-clamp none t h = h
IsOneLine-clamp (some n) t h = elim (Bool-cases (ltb n (text_length t))) [
  | inl over ↦
      rw over
        (All-append _ (slice n t) clamped (IsOneLine-slice n t h) (every-IsOneLine clamped refl))
  | inr fits ↦ rw fits h
]

-- None of the characters at which a renderer may begin a new line, and no tab: TAB, LF, VT, FF, CR,
-- NEL, LINE SEPARATOR and PARAGRAPH SEPARATOR.
abbrev pub HasNoBreak : Text → Type 0
HasNoBreak =
    All (λ c.
      (c ≢ 9) × (c ≢ 10) × (c ≢ 11) × (c ≢ 12) × (c ≢ 13) × (c ≢ 133) × (c ≢ 8232) × (c ≢ 8233))

IsOneLine-HasNoBreak : (t : Text) → IsOneLine t → HasNoBreak t
IsOneLine-HasNoBreak [] h = tt
IsOneLine-HasNoBreak (c ∷ cs) (h, hs) = (ground (arith, h), IsOneLine-HasNoBreak cs hs)

module _ (is_format is_dash : ℕ → Bool) where
  IsOneLine-remove_fences :
      (skip : ℕ) (t : Text) → IsOneLine t → IsOneLine (remove_fences is_format is_dash skip t)
  unfolding remove_fences
  IsOneLine-remove_fences zero [] h = tt
  IsOneLine-remove_fences (suc skip) [] h = tt
  IsOneLine-remove_fences (suc skip) (c ∷ cs) (h, hs) = IsOneLine-remove_fences skip cs hs
  IsOneLine-remove_fences zero (c ∷ cs) (h, hs) =
      elim (Option-cases (fence_at is_format is_dash (c ∷ cs))) [
        | inl plain ↦ rw (plain, remove_fences) (h, IsOneLine-remove_fences zero cs hs)
        | inr (rest, found) ↦
            rw (found, remove_fences)
              (All-append _ removed_fence_marker _ (every-IsOneLine removed_fence_marker refl)
                (IsOneLine-remove_fences (length cs - length rest) cs hs))
      ]

  -- Whatever the text: sanitised metadata has no line break and no tab in it, and at most 266 code
  -- units, which are 256 and those of the note that it was clamped.
  pub sanitize_metadata-HasNoBreak :
      (text : Text)
      → HasNoBreak (sanitize_metadata is_format is_dash text)
        × (text_length (sanitize_metadata is_format is_dash text) ≤ 266)
  unfolding sanitize_metadata sanitize_untrusted to_line
  sanitize_metadata-HasNoBreak text =
      let options = metadata_options is_format is_dash in
      let line = to_line is_format is_dash options (strip is_format is_dash text) in
      let out = remove_fences is_format is_dash zero line in
      let one =
        IsOneLine-remove_fences zero line (IsOneLine-to_line (strip is_format is_dash text)) in
      (IsOneLine-HasNoBreak _ (IsOneLine-clamp (some 256) out one), text_length-clamp 256 out)
