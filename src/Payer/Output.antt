-- ===== src/Payer/Output.antt =====
-- packages/mcp-x402-payer/src/output.ts: what the payer emits, and src/log-level.ts, which says
-- whether. A text is the list of its character codes; JSON is a parameter.
pub mod Censors
pub mod Silent
pub mod Seeds
pub mod Emitted
pub mod Fenced
mod Tests
use vellar_sdk.Prelude.{
  ℕ, zero, suc, ◌-◌, ◌<◌, ◌≤◌, Bool, true, false, not, ◌&&◌, ◌||◌, List, [], ◌∷◌, ◌++◌, Option,
  none, some, is_empty, leb, ◌==◌, nat_eq, codes, any, length, if◌then◌else◌,
}
use vellar_sdk.RequestAuth.Compare.{Text, text_eq}

abbrev pub redacted : Text
redacted = codes "[REDACTED]"

-- The secrets that are registered, in the order in which they were.
abbrev pub register_secret : Text → List Text → List Text
register_secret secret secrets =
    if is_empty secret || any (λ s. s == secret) secrets then secrets else secrets ++ secret ∷ []

abbrev pub starts_with : Text → Text → Bool
starts_with [] t = true
starts_with (x ∷ xs) [] = false
starts_with (x ∷ xs) (c ∷ cs) = x == c && starts_with xs cs

-- One more character in front of the first of the parts.
abbrev onto_part : ℕ → List Text → List Text
onto_part c [] = (c ∷ []) ∷ []
onto_part c (p ∷ ps) = (c ∷ p) ∷ ps

-- `text.split(s)` for a text `s` that is not empty; `skip` is what is left of an occurrence.
unfoldable pub split_by : Text → ℕ → Text → List Text
split_by s skip [] = [] ∷ []
split_by s (suc skip) (c ∷ cs) = split_by s skip cs
split_by s zero (c ∷ cs) = elim (starts_with s (c ∷ cs)) [
  | true ↦ [] ∷ split_by s (length s - 1) cs
  | false ↦ onto_part c (split_by s zero cs)
]

-- `parts.join(s)`.
unfoldable pub join_with : Text → List Text → Text
join_with s [] = []
join_with s (p ∷ []) = p
join_with s (p ∷ q ∷ ps) = p ++ s ++ join_with s (q ∷ ps)

unfoldable pub redact_secret : Text → Text → Text
unfolding split_by join_with
redact_secret s out = if is_empty s then out else join_with redacted (split_by s zero out)

-- `\w`, which `\b` compares two neighbours by.
abbrev pub is_word : ℕ → Bool
is_word c =
    (leb b'A' c && leb c b'Z')
    || ((leb b'a' c && leb c b'z') || ((leb b'0' c && leb c b'9') || c == b'_'))

-- `[A-Z2-7]`.
abbrev pub is_seed_character : ℕ → Bool
is_seed_character c = (leb b'A' c && leb c b'Z') || (leb b'2' c && leb c b'7')

-- `[A-Z2-7]{n}\b`, after a character of a word.
abbrev pub seed_tail : ℕ → Text → Bool
seed_tail zero [] = true
seed_tail zero (c ∷ cs) = not (is_word c)
seed_tail (suc n) [] = false
seed_tail (suc n) (c ∷ cs) = is_seed_character c && seed_tail n cs

-- `\bS[A-Z2-7]{55}\b`; `after_word` says whether the character before is one of a word.
abbrev pub is_seed_at : Bool → ℕ → Text → Bool
is_seed_at after_word c cs = not after_word && (c == b'S' && seed_tail 55 cs)

-- The replacement by the pattern; `skip` is what is left of an occurrence.
unfoldable pub redact_seeds : Bool → ℕ → Text → Text
redact_seeds after_word skip [] = []
redact_seeds after_word (suc skip) (c ∷ cs) = redact_seeds (is_word c) skip cs
redact_seeds after_word zero (c ∷ cs) = elim (is_seed_at after_word c cs) [
  | true ↦ redacted ++ redact_seeds (is_word c) 55 cs
  | false ↦ c ∷ redact_seeds (is_word c) zero cs
]

-- The loop over the registered secrets.
unfoldable pub redact_secrets : List Text → Text → Text
unfolding redact_secret
redact_secrets [] out = out
redact_secrets (s ∷ secrets) out = redact_secrets secrets (redact_secret s out)

unfoldable pub redact : List Text → Text → Text
unfolding redact_secrets redact_seeds
redact secrets text = redact_seeds false zero (redact_secrets secrets text)

-- What is thrown: an error with its name and its message, or another value with its text.
pub data Thrown : Type 0 where
  error : Text → Text → Thrown
  other : Text → Thrown

unfoldable pub format_error : List Text → Thrown → Text
unfolding redact
format_error secrets (error name message) =
    if not (is_empty name) && not (name == codes "Error")
    then name ++ b':' ∷ b' ' ∷ redact secrets message
    else redact secrets message
format_error secrets (other text) = redact secrets text

-- A chunk that is written to the standard output, as it is diverted.
unfoldable pub diverted : List Text → Text → Text
unfolding redact
diverted secrets chunk = redact secrets (codes "[diverted-stdout] " ++ chunk)

pub data LogLevel : Type 0 where
  debug info warn error_level silent : LogLevel

abbrev pub severity : LogLevel → ℕ
severity LogLevel.debug = 0
severity LogLevel.info = 1
severity LogLevel.warn = 2
severity LogLevel.error_level = 3
severity LogLevel.silent = 4

-- `threshold` is the level of the environment.
abbrev pub should_log : LogLevel → LogLevel → Bool
should_log threshold level = leb (severity threshold) (severity level)

-- What is written to the standard error. `line` is the line in JSON, if its fields have a form
-- there, and `bare` is the line without them.
unfoldable pub log : List Text → LogLevel → LogLevel → Option Text → Text → List Text
unfolding redact
log secrets threshold level line bare =
    if should_log threshold level
    then (redact secrets (elim line [ none ↦ bare | some text ↦ text ]) ++ 10 ∷ []) ∷ []
    else []
