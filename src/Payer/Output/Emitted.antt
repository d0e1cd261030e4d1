-- ===== src/Payer/Output/Emitted.antt =====
-- packages/mcp-x402-payer/src/output.ts: the secret of the payer in what the payer emits.
use vellar_sdk.Prelude.{
  ℕ, ◌<◌, ◌≤◌, true, false, not, ◌&&◌, List, [], ◌∷◌, ◌++◌, ◌≡◌, refl, ◌≢◌, Option, All, any,
  is_empty, length, ◌==◌, nat_eq, arith, Bool-cases, inl, inr, Memᴰ, Memᴰ-cases, every, codes, sym,
}
use vellar_sdk.RequestAuth.Compare.{Text, text_eq}
use vellar_sdk.Payer.Output.{
  register_secret, starts_with, is_seed_character, redact, error, other, format_error, diverted,
  LogLevel, should_log, log,
}
use vellar_sdk.Payer.Output.Censors.{includes, includes-stop, IsUnbracketed, IsPlain}
use vellar_sdk.Payer.Output.Silent.{redact-absent}

-- A Stellar ed25519 secret seed, which the configuration has checked that the secret is.
pub data IsSeed : Text → Type 0 where
  seed : {cs : Text} → length cs ≡ 55 → every is_seed_character cs ≡ true → IsSeed (b'S' ∷ cs)

length-starts_with : (s t : Text) → starts_with s t ≡ true → length s ≤ length t
length-starts_with [] t h = omega arith
length-starts_with (x ∷ xs) [] h = cc h
length-starts_with (x ∷ xs) (c ∷ cs) h = let rest = length-starts_with xs cs in ground (arith, rest)

pub length-includes : (s t : Text) → includes s t ≡ true → length s ≤ length t
length-includes [] t h = omega arith
length-includes (x ∷ xs) [] h = cc h
length-includes (x ∷ xs) (c ∷ cs) h =
    let first = length-starts_with (x ∷ xs) (c ∷ cs) in
    let rest = length-includes (x ∷ xs) cs in ground (arith, first, rest)

pub too_long : (s t : Text) → length t < length s → includes s t ≡ false
too_long s t h = let bound = length-includes s t in ground (arith, bound)

every-All :
    (cs : Text) → every is_seed_character cs ≡ true → All (λ c. is_seed_character c ≡ true) cs
every-All [] h = tt
every-All (c ∷ cs) h = (ground (arith, h), every-All cs (ground (arith, h)))

seeds-IsUnbracketed : (cs : Text) → All (λ c. is_seed_character c ≡ true) cs → IsUnbracketed cs
seeds-IsUnbracketed [] h = tt
seeds-IsUnbracketed (c ∷ cs) (h, hs) = (ground (arith, h), seeds-IsUnbracketed cs hs)

IsSeed-IsPlain : {s : Text} → IsSeed s → IsPlain s
IsSeed-IsPlain (IsSeed.seed {cs} n h) = (
  seeds-IsUnbracketed (b'S' ∷ cs) (refl, every-All cs h),
  too_long (b'S' ∷ cs) (codes "[REDACTED") (omega arith),
)

-- No blank, line break or other character that a seed cannot have.
seeds-without :
    (z : ℕ) (cs : Text)
    → is_seed_character z ≡ false
    → All (λ c. is_seed_character c ≡ true) cs
    → All (λ c. c ≢ z) cs
seeds-without z [] o h = tt
seeds-without z (c ∷ cs) o (h, hs) = (λ e. cc (e, h, o), seeds-without z cs o hs)

IsSeed-without : (z : ℕ) {s : Text} → is_seed_character z ≡ false → IsSeed s → All (λ c. c ≢ z) s
IsSeed-without z o (IsSeed.seed {cs} n h) = seeds-without z (b'S' ∷ cs) o (refl, every-All cs h)

Memᴰ-snoc : (s : Text) (secrets : List Text) → Memᴰ s (secrets ++ s ∷ [])
Memᴰ-snoc s [] = Memᴰ.head refl
Memᴰ-snoc s (r ∷ secrets) = Memᴰ.tail (Memᴰ-snoc s secrets)

Memᴰ-any : (s : Text) (secrets : List Text) → any (λ r. r == s) secrets ≡ true → Memᴰ s secrets
Memᴰ-any s [] h = cc h
Memᴰ-any s (r ∷ secrets) h = elim (Bool-cases (r == s)) [
  | inl same ↦ Memᴰ.head (sym ((text_eq.same_iff r s).0 same))
  | inr differs ↦ Memᴰ.tail (Memᴰ-any s secrets (rw differs at h))
]

Memᴰ-register_secret :
    {s : Text} (secrets : List Text) → IsSeed s → Memᴰ s (register_secret s secrets)
Memᴰ-register_secret {s} secrets (IsSeed.seed {cs} n h) =
    elim (Bool-cases (any (λ r. r == b'S' ∷ cs) secrets)) [
      | inl there ↦ rw there (Memᴰ-any (b'S' ∷ cs) secrets there)
      | inr fresh ↦ rw fresh (Memᴰ-snoc (b'S' ∷ cs) secrets)
    ]

-- What the process emits through this file. The name of an error is emitted as it is.
pub data Emits (secrets : List Text) (s : Text) : Text → Type 0 where
  logged :
      (threshold level : LogLevel) (line : Option Text) (bare : Text) {t : Text}
      → Memᴰ t (log secrets threshold level line bare)
      → Emits secrets s t
  diverts : (chunk : Text) → Emits secrets s (diverted secrets chunk)
  formats : (text : Text) → Emits secrets s (format_error secrets (other text))
  formats_error :
      (name message : Text)
      → includes s name ≡ false
      → Emits secrets s (format_error secrets (error name message))

absent-nil : {s : Text} → IsSeed s → includes s [] ≡ false
absent-nil (IsSeed.seed n h) = refl

absent-stop :
    (z : ℕ) {s : Text} (w u : Text)
    → is_seed_character z ≡ false
    → IsSeed s
    → includes s w ≡ false
    → includes s u ≡ false
    → includes s (w ++ z ∷ u) ≡ false
absent-stop z {s} w u o is_seed e1 e2 = elim (Bool-cases (includes s (w ++ z ∷ u))) [
  | inl there ↦ elim (includes-stop z s w u (IsSeed-without z o is_seed) there) [
    | inl before ↦ cc (before, e1)
    | inr after ↦ cc (after, e2)
  ]
  | inr absent ↦ absent
]

log-absent :
    (secrets : List Text) {s t : Text} (threshold level : LogLevel) (line : Option Text)
    (bare : Text)
    → Memᴰ s secrets
    → IsSeed s
    → Memᴰ t (log secrets threshold level line bare)
    → includes s t ≡ false
unfolding log
log-absent secrets {s} {t} threshold level line bare m is_seed k =
    elim (Bool-cases (should_log threshold level)) [
      | inl loud ↦ elim (Memᴰ-cases (rw loud at k)) [
        | inl e ↦
            let absent = redact-absent secrets s _ m (IsSeed-IsPlain is_seed) in
            rw e (absent-stop 10 _ [] refl is_seed absent (absent-nil is_seed))
        | inr none_left ↦ elim none_left [ ]
      ]
      | inr quiet ↦ elim (rw quiet at k) [ ]
    ]

format_error-absent :
    (secrets : List Text) {s : Text} (name message : Text)
    → Memᴰ s secrets
    → IsSeed s
    → includes s name ≡ false
    → includes s (format_error secrets (error name message)) ≡ false
unfolding format_error
format_error-absent secrets {s} name message m is_seed e =
    let absent = redact-absent secrets s message m (IsSeed-IsPlain is_seed) in
    elim (Bool-cases (not (is_empty name) && not (name == codes "Error"))) [
      | inl named ↦ rw named (
          absent-stop b':' name (b' ' ∷ redact secrets message) refl is_seed e
            (absent-stop b' ' [] (redact secrets message) refl is_seed (absent-nil is_seed) absent))
      | inr plain ↦ rw plain absent
    ]

-- With a seed registered, whatever was registered before it: the seed stands in no line of the log,
-- in no chunk that is diverted from the standard output, in no formatted value, and in no formatted
-- error whose name does not hold it.
pub emitted-IsSilent :
    (earlier : List Text) (s t : Text)
    → IsSeed s
    → Emits (register_secret s earlier) s t
    → includes s t ≡ false
unfolding diverted format_error
emitted-IsSilent earlier s t is_seed (Emits.logged threshold level line bare k) =
    log-absent _ threshold level line bare (Memᴰ-register_secret earlier is_seed) is_seed k
emitted-IsSilent earlier s t is_seed (Emits.diverts chunk) =
    redact-absent _ s _ (Memᴰ-register_secret earlier is_seed) (IsSeed-IsPlain is_seed)
emitted-IsSilent earlier s t is_seed (Emits.formats text) =
    redact-absent _ s text (Memᴰ-register_secret earlier is_seed) (IsSeed-IsPlain is_seed)
emitted-IsSilent earlier s t is_seed (Emits.formats_error name message e) =
    format_error-absent _ name message (Memᴰ-register_secret earlier is_seed) is_seed e
