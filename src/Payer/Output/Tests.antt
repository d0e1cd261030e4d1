-- ===== src/Payer/Output/Tests.antt =====
-- Tests of the redaction, and the witnesses.
use vellar_sdk.Prelude.{true, false, List, [], ◌∷◌, ◌++◌, ◌≡◌, refl, arith, none, some, codes, Memᴰ}
use vellar_sdk.RequestAuth.Compare.{Text}
use vellar_sdk.Payer.Output.{
  register_secret, redact_secret, redact, error, format_error, diverted, info, warn, error_level,
  log,
}
use vellar_sdk.Payer.Output.Censors.{includes}
use vellar_sdk.Payer.Output.Seeds.{has_seed, redact-IsSilent}
use vellar_sdk.Payer.Output.Fenced.{redacted_metadata}
use vellar_sdk.Payer.Output.Emitted.{IsSeed, diverts, emitted-IsSilent}

abbrev secret : Text
secret = codes "SAAAAAAAAAAAAAAAAAAAAAAAAAAAAAAAAAAAAAAAAAAAAAAAAAAAAAAA"

abbrev pub other_seed : Text
other_seed = codes "SBBBBBBBBBBBBBBBBBBBBBBBBBBBBBBBBBBBBBBBBBBBBBBBBBBBBBBB"

abbrev registered : List Text
registered = register_secret secret []

split_twice :
    redact_secret (codes "key") (codes "a key, keykey") ≡ codes "a [REDACTED], [REDACTED][REDACTED]"
unfolding redact_secret
split_twice = refl

-- The registered secret goes also from within a word, another seed only where it is a word.
redacts_both :
    redact registered (codes "x" ++ secret ++ codes " y " ++ other_seed)
    ≡ codes "x[REDACTED] y [REDACTED]"
unfolding redact
redacts_both = refl

keeps_within_word : redact registered (codes "x" ++ other_seed) ≡ codes "x" ++ other_seed
unfolding redact
keeps_within_word = refl

-- The name of an error is not redacted.
name_is_emitted : includes secret (format_error registered (error secret (codes "failed"))) ≡ true
unfolding format_error
name_is_emitted = refl

quiet : log registered warn info (some (codes "{}")) [] ≡ []
unfolding log
quiet = refl

loud : log registered warn error_level none (codes "{}") ≡ codes "{}\n" ∷ []
unfolding log
loud = refl

redact-IsSilent_example :
    (includes (codes "key") (redact (codes "key" ∷ registered) (codes "a key")) ≡ false)
    × (has_seed false (redact (codes "key" ∷ registered) (codes "a key")) ≡ false)
redact-IsSilent_example =
    redact-IsSilent (codes "key" ∷ registered) (codes "key") (codes "a key") (Memᴰ.head refl)
      ((ground arith, (ground arith, (ground arith, tt))), refl)

emitted-IsSilent_example :
    includes secret (diverted (register_secret secret (other_seed ∷ [])) (codes "got " ++ secret))
    ≡ false
emitted-IsSilent_example =
    emitted-IsSilent (other_seed ∷ []) secret _ (IsSeed.seed refl refl)
      (diverts (codes "got " ++ secret))

-- The sanitiser removes a control character from within the secret after the redaction has passed.
secret_joined_again :
    includes secret (
      redacted_metadata
        (λ c. false)
        (λ c. false)
        registered
        (codes "S" ++ 7 ∷ codes "AAAAAAAAAAAAAAAAAAAAAAAAAAAAAAAAAAAAAAAAAAAAAAAAAAAAAAA"))
    ≡ true
unfolding redacted_metadata
secret_joined_again = refl
