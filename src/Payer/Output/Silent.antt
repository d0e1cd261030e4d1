-- ===== src/Payer/Output/Silent.antt =====
-- packages/mcp-x402-payer/src/output.ts: what is not in a text that has been redacted.
use vellar_sdk.Prelude.{
  ℕ, zero, suc, ◌-◌, Bool, true, false, List, [], ◌∷◌, ◌++◌, ◌≡◌, refl, is_empty, length, nat_eq,
  arith, Bool-cases, inl, inr, Memᴰ, Memᴰ-cases,
}
use vellar_sdk.RequestAuth.Compare.{Text}
use vellar_sdk.Payer.Output.{
  redacted, starts_with, onto_part, split_by, join_with, redact_secret, is_seed_at, redact_seeds,
  is_word, redact_secrets, redact,
}
use vellar_sdk.Payer.Output.Censors.{
  Censors, includes, IsPlain, includes-redacted, includes-Censors, starts_with-Censors, drop,
  hidden-drop,
}

-- The texts that a text splits into are never none.
abbrev Parts : Text → ℕ → Text → Type 0
Parts s skip t = (p : Text) × (ps : List Text) × (split_by s skip t ≡ p ∷ ps)

split_by-Parts : (s : Text) (skip : ℕ) (t : Text) → Parts s skip t
unfolding split_by
split_by-Parts s zero [] = ([], [], refl)
split_by-Parts s (suc skip) [] = ([], [], refl)
split_by-Parts s (suc skip) (c ∷ cs) = split_by-Parts s skip cs
split_by-Parts s zero (c ∷ cs) = elim (Bool-cases (starts_with s (c ∷ cs))) [
  | inl here ↦ rw (here, split_by) ([], split_by s (length s - 1) cs, refl)
  | inr later ↦
      rw (later, split_by) (let (p, ps, e) = split_by-Parts s zero cs in rw e (c ∷ p, ps, refl))
]

join_with-onto_part :
    (c : ℕ) (p : Text) (ps : List Text)
    → join_with redacted (onto_part c (p ∷ ps)) ≡ c ∷ join_with redacted (p ∷ ps)
unfolding join_with
join_with-onto_part c p [] = refl
join_with-onto_part c p (q ∷ ps) = refl

-- The text of the parts, with the placeholder between them.
abbrev Hidden : Text → ℕ → Text → Text
Hidden s skip t = join_with redacted (split_by s skip t)

Hidden-here :
    (s : Text) (c : ℕ) (cs : Text)
    → starts_with s (c ∷ cs) ≡ true
    → Hidden s zero (c ∷ cs) ≡ redacted ++ Hidden s (length s - 1) cs
unfolding split_by join_with
Hidden-here s c cs here =
    let (p, ps, e) = split_by-Parts s (length s - 1) cs in rw (here, split_by, e) refl

Hidden-later :
    (s : Text) (c : ℕ) (cs : Text)
    → starts_with s (c ∷ cs) ≡ false
    → Hidden s zero (c ∷ cs) ≡ c ∷ Hidden s zero cs
unfolding split_by
Hidden-later s c cs later =
    let (p, ps, e) = split_by-Parts s zero cs in
    rw (later, split_by, e) (join_with-onto_part c p ps)

Hidden-Censors : (s : Text) (skip : ℕ) (t : Text) → Censors (drop skip t) (Hidden s skip t)
unfolding split_by join_with
Hidden-Censors s zero [] = Censors.done
Hidden-Censors s (suc skip) [] = Censors.done
Hidden-Censors s (suc skip) (c ∷ cs) = Hidden-Censors s skip cs
Hidden-Censors s zero (c ∷ cs) = elim (Bool-cases (starts_with s (c ∷ cs))) [
  | inl here ↦
      rw (Hidden-here s c cs here)
        (hidden-drop c (length s - 1) cs (Hidden-Censors s (length s - 1) cs))
  | inr later ↦ rw (Hidden-later s c cs later) (Censors.kept c (Hidden-Censors s zero cs))
]

IsPlain-nonempty : (s : Text) → IsPlain s → is_empty s ≡ false
IsPlain-nonempty [] h = cc h.1
IsPlain-nonempty (x ∷ xs) h = refl

absent-redacted :
    (s u : Text) → IsPlain s → includes s u ≡ false → includes s (redacted ++ u) ≡ false
absent-redacted s u h e = elim (Bool-cases (includes s (redacted ++ u))) [
  | inl there ↦ cc (includes-redacted s u h there, e)
  | inr absent ↦ absent
]

absent-kept :
    (s : Text) (c : ℕ) {t u : Text}
    → IsPlain s
    → Censors t u
    → starts_with s (c ∷ t) ≡ false
    → includes s u ≡ false
    → includes s (c ∷ u) ≡ false
absent-kept s c {t} {u} h k before e = elim (Bool-cases (starts_with s (c ∷ u))) [
  | inl here ↦ cc (starts_with-Censors s h.0 (Censors.kept c k) here, before)
  | inr later ↦ rw later e
]

Hidden-nil : (s : Text) (skip : ℕ) → Hidden s skip [] ≡ []
unfolding split_by join_with
Hidden-nil s zero = refl
Hidden-nil s (suc skip) = refl

Hidden-skip : (s : Text) (c skip : ℕ) (cs : Text) → Hidden s (suc skip) (c ∷ cs) ≡ Hidden s skip cs
unfolding split_by
Hidden-skip s c skip cs = refl

-- No occurrence of a plain text is left where it has been split and joined.
Hidden-absent :
    (s : Text) → IsPlain s → (skip : ℕ) (t : Text) → includes s (Hidden s skip t) ≡ false
Hidden-absent s h skip [] = rw (Hidden-nil s skip) (IsPlain-nonempty s h)
Hidden-absent s h (suc skip) (c ∷ cs) = rw (Hidden-skip s c skip cs) (Hidden-absent s h skip cs)
Hidden-absent s h zero (c ∷ cs) = elim (Bool-cases (starts_with s (c ∷ cs))) [
  | inl here ↦
      rw (Hidden-here s c cs here) (absent-redacted s _ h (Hidden-absent s h (length s - 1) cs))
  | inr later ↦
      rw (Hidden-later s c cs later)
        (absent-kept s c h (Hidden-Censors s zero cs) later (Hidden-absent s h zero cs))
]

redact_secret-absent : (s t : Text) → IsPlain s → includes s (redact_secret s t) ≡ false
unfolding redact_secret
redact_secret-absent s t h = rw (IsPlain-nonempty s h) (Hidden-absent s h zero t)

Censors-refl : (t : Text) → Censors t t
Censors-refl [] = Censors.done
Censors-refl (c ∷ cs) = Censors.kept c (Censors-refl cs)

redact_secret-Censors : (s t : Text) → Censors t (redact_secret s t)
unfolding redact_secret
redact_secret-Censors s t = elim (Bool-cases (is_empty s)) [
  | inl empty ↦ rw empty (Censors-refl t)
  | inr given ↦ rw given (Hidden-Censors s zero t)
]

redact_seeds-Censors :
    (w : Bool) (skip : ℕ) (t : Text) → Censors (drop skip t) (redact_seeds w skip t)
unfolding redact_seeds
redact_seeds-Censors w zero [] = Censors.done
redact_seeds-Censors w (suc skip) [] = Censors.done
redact_seeds-Censors w (suc skip) (c ∷ cs) = redact_seeds-Censors (is_word c) skip cs
redact_seeds-Censors w zero (c ∷ cs) = elim (Bool-cases (is_seed_at w c cs)) [
  | inl here ↦
      rw (here, redact_seeds) (hidden-drop c 55 cs (redact_seeds-Censors (is_word c) 55 cs))
  | inr later ↦ rw (later, redact_seeds) (Censors.kept c (redact_seeds-Censors (is_word c) zero cs))
]

-- What a step that only replaces parts has not been given, it does not bring in.
absent-Censors :
    (s : Text) {t u : Text} → IsPlain s → Censors t u → includes s t ≡ false → includes s u ≡ false
absent-Censors s {t} {u} h k e = let back = includes-Censors s h k in ground (arith, back, e)

redact_secrets-keeps :
    (s : Text)
    → IsPlain s
    → (secrets : List Text) (t : Text) → includes s t ≡ false
    → includes s (redact_secrets secrets t) ≡ false
unfolding redact_secrets
redact_secrets-keeps s h [] t e = e
redact_secrets-keeps s h (r ∷ secrets) t e =
    redact_secrets-keeps s h secrets _ (absent-Censors s h (redact_secret-Censors r t) e)

redact_secrets-absent :
    (s : Text)
    → IsPlain s
    → (secrets : List Text) (t : Text) → Memᴰ s secrets
    → includes s (redact_secrets secrets t) ≡ false
unfolding redact_secrets
redact_secrets-absent s h [] t m = elim m [ ]
redact_secrets-absent s h (r ∷ secrets) t m = elim (Memᴰ-cases m) [
  | inl e ↦ redact_secrets-keeps s h secrets _ (rw (← e) (redact_secret-absent s t h))
  | inr later ↦ redact_secrets-absent s h secrets _ later
]

-- No registered secret stands in a redacted text.
pub redact-absent :
    (secrets : List Text) (s t : Text)
    → Memᴰ s secrets
    → IsPlain s
    → includes s (redact secrets t) ≡ false
unfolding redact
redact-absent secrets s t m h =
    absent-Censors s h (redact_seeds-Censors false zero (redact_secrets secrets t))
      (redact_secrets-absent s h secrets t m)
