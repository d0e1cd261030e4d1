-- ===== src/Untrusted/Marker.antt =====
-- src/x402-untrusted.ts: the texts by which a fence ends, in any case and with any white space.
use mathlib.Core.List.{append_assoc}
use vellar_sdk.Prelude.{
  ℕ, suc, ◌≤◌, Bool, true, false, ◌&&◌, [], ◌∷◌, ◌++◌, Option, some, none, ◌≡◌, refl, ap, ◌∙◌, ◌≢◌,
  All, All-append, every, length, length-append, leb, ◌==◌, nat_eq, codes, arith, Bool-cases, inl,
  inr,
}
use vellar_sdk.RequestAuth.Compare.{Text}
use vellar_sdk.Tokens.{is_space}
use vellar_sdk.Untrusted.{
  is_letter, is_word_character, drop_while, literal, spaces, begin_or_end, rest_of_line, is_rule,
  fence_at, and_then,
}

-- A word, in any case.
abbrev pub IsWord : Text → Text → Type 0
IsWord [] [] = Unit
IsWord (x ∷ xs) (c ∷ cs) = (is_letter x c ≡ true) × IsWord xs cs
IsWord _ _ = ⊥

-- One or more characters of white space.
abbrev pub AreSpaces : Text → Type 0
AreSpaces [] = ⊥
AreSpaces (c ∷ cs) = (is_space c ≡ true) × All (λ d. is_space d ≡ true) cs

-- The words END, UNTRUSTED, RESOURCE and DATA, each with white space after it.
pub record EndMarker : Type 0 where
  pub end_word : Text
  pub gap1 : Text
  pub untrusted_word : Text
  pub gap2 : Text
  pub resource_word : Text
  pub gap3 : Text
  pub data_word : Text
  pub last_space : ℕ

pub record IsMarker (m : EndMarker) : Type 0 where
  pub at_end : IsWord (codes "END") m.end_word
  pub at_gap1 : AreSpaces m.gap1
  pub at_untrusted : IsWord (codes "UNTRUSTED") m.untrusted_word
  pub at_gap2 : AreSpaces m.gap2
  pub at_resource : IsWord (codes "RESOURCE") m.resource_word
  pub at_gap3 : AreSpaces m.gap3
  pub at_data : IsWord (codes "DATA") m.data_word
  pub at_space : is_space m.last_space ≡ true

-- The text of a marker, before a rest.
abbrev pub marker_before : EndMarker → Text → Text
marker_before m u =
    m.end_word
    ++ (m.gap1
        ++ (m.untrusted_word
            ++ (m.gap2 ++ (m.resource_word ++ (m.gap3 ++ (m.data_word ++ m.last_space ∷ u))))))

abbrev pub marker_text : EndMarker → Text
marker_text m = marker_before m []

pub marker_text-append : (m : EndMarker) (u : Text) → marker_text m ++ u ≡ marker_before m u
marker_text-append m u = simp (
  append_assoc m.end_word,
  append_assoc m.gap1,
  append_assoc m.untrusted_word,
  append_assoc m.gap2,
  append_assoc m.resource_word,
  append_assoc m.gap3,
  append_assoc m.data_word,
)

literal-IsWord : (w t u : Text) → IsWord w t → literal w (t ++ u) ≡ some u
unfolding literal
literal-IsWord [] [] u h = refl
literal-IsWord [] (c ∷ cs) u h = absurd h
literal-IsWord (x ∷ xs) [] u h = absurd h
literal-IsWord (x ∷ xs) (c ∷ cs) u (e, h) = rw (e, literal) (literal-IsWord xs cs u h)

drop_while-spaces :
    (s : Text) (c : ℕ) (u : Text)
    → All (λ d. is_space d ≡ true) s
    → is_space c ≡ false
    → drop_while is_space (s ++ c ∷ u) ≡ c ∷ u
unfolding drop_while
drop_while-spaces [] c u h e = rw (e, drop_while) refl
drop_while-spaces (d ∷ s) c u (p, h) e = rw (p, drop_while) (drop_while-spaces s c u h e)

spaces-AreSpaces :
    (s : Text) (c : ℕ) (u : Text)
    → AreSpaces s
    → is_space c ≡ false
    → spaces (s ++ c ∷ u) ≡ some (c ∷ u)
unfolding spaces
spaces-AreSpaces [] c u h e = absurd h
spaces-AreSpaces (d ∷ s) c u (p, h) e = rw (p, spaces) (ap some (drop_while-spaces s c u h e))

-- White space before a word goes, up to the word.
gap_word :
    (x : ℕ) (xs s t u : Text)
    → ((c : ℕ) → is_letter x c ≡ true → is_space c ≡ false)
    → AreSpaces s
    → IsWord (x ∷ xs) t
    → spaces (s ++ (t ++ u)) ≡ some (t ++ u)
gap_word x xs s [] u letter h k = absurd k
gap_word x xs s (c ∷ cs) u letter h (e, k) = spaces-AreSpaces s c (cs ++ u) h (letter c e)

-- What is left to match of a marker, after one of its parts.
abbrev from_gap3 : Text → Option Text
from_gap3 t = and_then (literal (codes "DATA") t) rest_of_line

abbrev from_resource : Text → Option Text
from_resource t = and_then (spaces t) from_gap3

abbrev from_gap2 : Text → Option Text
from_gap2 t = and_then (literal (codes "RESOURCE") t) from_resource

abbrev from_untrusted : Text → Option Text
from_untrusted t = and_then (spaces t) from_gap2

abbrev from_gap1 : Text → Option Text
from_gap1 t = and_then (literal (codes "UNTRUSTED") t) from_untrusted

abbrev from_end : Text → Option Text
from_end t = and_then (spaces t) from_gap1

module _ (is_format is_dash : ℕ → Bool) (upper : is_dash b'E' ≡ false)
    (lower : is_dash b'e' ≡ false) where
  end_starts :
      (c : ℕ)
      → is_letter b'E' c ≡ true
      → (is_rule is_format is_dash c ≡ false) × (is_space c ≡ false) × (is_letter b'B' c ≡ false)
  end_starts c h = elim (Bool-cases (c == b'E')) [
    | inl big ↦
        let is : c ≡ b'E' = (nat_eq.same_iff c b'E').0 big in rw (is, upper) (refl, refl, refl)
    | inr other ↦ let is : c ≡ b'e' = ground (arith, h, other) in rw (is, lower) (refl, refl, refl)
  ]

  drop_while-first :
      (p : ℕ → Bool) (c : ℕ) (cs : Text) → p c ≡ false → drop_while p (c ∷ cs) ≡ c ∷ cs
  unfolding drop_while
  drop_while-first p c cs h = rw (h, drop_while) refl

  literal-other :
      (x : ℕ) (xs : Text) (c : ℕ) (cs : Text)
      → is_letter x c ≡ false
      → literal (x ∷ xs) (c ∷ cs) ≡ none
  unfolding literal
  literal-other x xs c cs h = rw (h, literal) refl

  end_or_begin :
      (t u : Text)
      → literal (codes "BEGIN") t ≡ none
      → literal (codes "END") t ≡ some u
      → begin_or_end t ≡ some u
  unfolding begin_or_end
  end_or_begin t u b e = rw (b, begin_or_end) e

  begin_or_end-word :
      (t u : Text)
      → IsWord (codes "END") t
      → begin_or_end (drop_while is_space (drop_while (is_rule is_format is_dash) (t ++ u)))
        ≡ some u
  begin_or_end-word [] u h = absurd h
  begin_or_end-word (c ∷ cs) u (e, h) =
      let (not_rule, not_space, not_b) = end_starts c e in
      let skip = drop_while-first (is_rule is_format is_dash) c (cs ++ u) not_rule in
      let stay = drop_while-first is_space c (cs ++ u) not_space in
      ap (λ t. begin_or_end (drop_while is_space t)) skip
      ∙ (ap begin_or_end stay
          ∙ end_or_begin (c ∷ cs ++ u) u (literal-other b'B' (codes "EGIN") c (cs ++ u) not_b)
              (literal-IsWord (codes "END") (c ∷ cs) u (e, h)))

  line_left : (z : ℕ) (u : Text) → is_space z ≡ true → (r : Text) × (rest_of_line (z ∷ u) ≡ some r)
  unfolding rest_of_line
  line_left z u h =
      let ends : is_word_character z ≡ false = ground (arith, h) in
      rw (ends, rest_of_line) (_, refl)

  -- A fence is found wherever a marker begins.
  pub fence_at-marker :
      (m : EndMarker) (u : Text)
      → IsMarker m
      → (r : Text) × (fence_at is_format is_dash (marker_before m u) ≡ some r)
  unfolding fence_at
  fence_at-marker m u h =
      let (r, left) = line_left m.last_space u h.at_space in
      let u6 = m.data_word ++ m.last_space ∷ u in
      let u5 = m.gap3 ++ u6 in
      let u4 = m.resource_word ++ u5 in
      let u3 = m.gap2 ++ u4 in
      let u2 = m.untrusted_word ++ u3 in
      let u1 = m.gap1 ++ u2 in
      (
        r,
        ap (λ o. and_then o (from_end)) (begin_or_end-word m.end_word u1 h.at_end)
            ∙ (ap (λ o. and_then o from_gap1)
                  (gap_word b'U' (codes "NTRUSTED") m.gap1 m.untrusted_word u3
                    (λ c e. ground (arith, e)) h.at_gap1 h.at_untrusted)
                ∙ (ap (λ o. and_then o from_untrusted)
                      (literal-IsWord (codes "UNTRUSTED") m.untrusted_word u3 h.at_untrusted)
                    ∙ (ap (λ o. and_then o from_gap2)
                          (gap_word b'R' (codes "ESOURCE") m.gap2 m.resource_word u5
                            (λ c e. ground (arith, e)) h.at_gap2 h.at_resource)
                        ∙ (ap (λ o. and_then o from_resource)
                              (literal-IsWord (codes "RESOURCE") m.resource_word u5 h.at_resource)
                            ∙ (ap (λ o. and_then o from_gap3)
                                  (gap_word b'D' (codes "ATA") m.gap3 m.data_word (m.last_space ∷ u)
                                    (λ c e. ground (arith, e)) h.at_gap3 h.at_data)
                                ∙ (ap (λ o. and_then o rest_of_line)
                                      (literal-IsWord (codes "DATA") m.data_word (m.last_space ∷ u)
                                        h.at_data)
                                    ∙ left)))))),
      )

word_without :
    (z : ℕ) (w t : Text)
    → is_word_character z ≡ false
    → every (λ x. leb b'A' x && leb x b'Z') w ≡ true
    → IsWord w t
    → All (λ c. c ≢ z) t
word_without z [] [] o h k = tt
word_without z [] (c ∷ cs) o h k = absurd k
word_without z (x ∷ xs) [] o h k = absurd k
word_without z (x ∷ xs) (c ∷ cs) o h (e, k) =
    (λ is. ground (arith, o, h, e, is), word_without z xs cs o (ground (arith, h)) k)

spaces_without :
    (z : ℕ) (s : Text) → is_space z ≡ false → All (λ d. is_space d ≡ true) s → All (λ c. c ≢ z) s
spaces_without z [] o h = tt
spaces_without z (c ∷ cs) o (e, h) = (λ is. cc (is, o, e), spaces_without z cs o h)

gap_without : (z : ℕ) (s : Text) → is_space z ≡ false → AreSpaces s → All (λ c. c ≢ z) s
gap_without z [] o h = absurd h
gap_without z (c ∷ cs) o h = spaces_without z (c ∷ cs) o h

-- What is neither a character of a word nor white space stands in no marker.
pub marker-without :
    (z : ℕ) (m : EndMarker)
    → is_word_character z ≡ false
    → is_space z ≡ false
    → IsMarker m
    → All (λ c. c ≢ z) (marker_text m)
marker-without z m o b h =
    let P : ℕ → Type 0 = λ c. c ≢ z in
    All-append P m.end_word _ (word_without z (codes "END") m.end_word o refl h.at_end) (
      All-append P m.gap1 _ (gap_without z m.gap1 b h.at_gap1) (
        All-append P m.untrusted_word _
          (word_without z (codes "UNTRUSTED") m.untrusted_word o refl h.at_untrusted)
          (All-append P m.gap2 _ (gap_without z m.gap2 b h.at_gap2) (
            All-append P m.resource_word _
              (word_without z (codes "RESOURCE") m.resource_word o refl h.at_resource)
              (All-append P m.gap3 _ (gap_without z m.gap3 b h.at_gap3) (
                All-append P m.data_word _
                  (word_without z (codes "DATA") m.data_word o refl h.at_data)
                  (λ is. cc (is, b, h.at_space), tt)))))))

length-IsWord : (w t : Text) → IsWord w t → length t ≡ length w
length-IsWord [] [] h = refl
length-IsWord [] (c ∷ cs) h = absurd h
length-IsWord (x ∷ xs) [] h = absurd h
length-IsWord (x ∷ xs) (c ∷ cs) (e, h) = ap suc (length-IsWord xs cs h)

length-AreSpaces : (s : Text) → AreSpaces s → 1 ≤ length s
length-AreSpaces [] h = absurd h
length-AreSpaces (c ∷ cs) h = omega arith

pub length-marker : (m : EndMarker) → IsMarker m → 28 ≤ length (marker_text m)
length-marker m h =
    let u6 = m.data_word ++ m.last_space ∷ [] in
    let u5 = m.gap3 ++ u6 in
    let u4 = m.resource_word ++ u5 in
    let u3 = m.gap2 ++ u4 in
    let u2 = m.untrusted_word ++ u3 in
    let u1 = m.gap1 ++ u2 in
    omega (
      arith,
      length-append m.end_word u1,
      length-append m.gap1 u2,
      length-append m.untrusted_word u3,
      length-append m.gap2 u4,
      length-append m.resource_word u5,
      length-append m.gap3 u6,
      length-append m.data_word (m.last_space ∷ []),
      length-IsWord (codes "END") m.end_word h.at_end,
      length-IsWord (codes "UNTRUSTED") m.untrusted_word h.at_untrusted,
      length-IsWord (codes "RESOURCE") m.resource_word h.at_resource,
      length-IsWord (codes "DATA") m.data_word h.at_data,
      length-AreSpaces m.gap1 h.at_gap1,
      length-AreSpaces m.gap2 h.at_gap2,
      length-AreSpaces m.gap3 h.at_gap3,
    )
