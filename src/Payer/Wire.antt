-- ===== src/Payer/Wire.antt =====
-- packages/mcp-x402-payer/src/protocol.ts, and what a payment of payer.ts sees and does.
-- The injected `fetch` and the signer are the scripts `fetches` and `signs` of a `World`: each call
-- takes the next answer, `none` is a rejected promise, and so is every call after the last answer.
-- The log, newest entry first, is what the payment did and got; it is the model's own.
pub mod Steps
use vellar_sdk.Prelude.{
  ℕ, ℤ, pos, String, Option, none, some, List, [], ◌∷◌, Result, ok, err, is_empty, not, ◌==◌,
  nat_eq, if◌then◌else◌,
}
use vellar_sdk.Http.{Response}
use vellar_sdk.X402.{
  PaymentRequirements, PaymentRequired, no_usable_payment_option, unsupported_version, no_options,
}
use vellar_sdk.Guards.Settlement.{SettleResult}
use vellar_sdk.Payer.Errors.{
  PayerError, guard_error, not_an_object, fetch_failed, sign_failed, body_unreadable,
}
use vellar_sdk.Payer.Ledger.{SpendLedger, assert_within_ceiling, record_spend, remaining_for}

-- What `JSON.parse` gives: an object, or `null` or a value of another type.
pub data Decoded : Type 0 where
  non_object : Decoded
  object : PaymentRequired → Decoded

unfoldable pub assert_v2_challenge : Decoded → Result PayerError PaymentRequired
assert_v2_challenge non_object = err not_an_object
assert_v2_challenge (object challenge) =
    if not (challenge.x402_version == 2)
    then err (guard_error (no_usable_payment_option unsupported_version))
    else elim challenge.accepts [
      | none ↦ err (guard_error (no_usable_payment_option no_options))
      | some l ↦
          if is_empty l
          then err (guard_error (no_usable_payment_option no_options))
          else ok challenge
    ]

abbrev pub narrow_to : PaymentRequired → PaymentRequirements → PaymentRequired
narrow_to challenge chosen = record challenge { accepts = some (chosen ∷ []) }

-- `JSON.parse(base64ToUtf8(header))`, for each of the headers that are read.
pub record Codecs : Type 0 where
  pub challenge : String → Option Decoded
  pub rejection : String → Option (Option String)
  pub settle : String → Option SettleResult

pub data Act : Type 0 where
  signed : PaymentRequired → Act
  answered : Response → Act
  debited : (asset : String) → (amount : ℕ) → Act

pub record World : Type 0 where
  pub ledger : SpendLedger
  pub fetches : List (Option Response)
  pub signs : List (Option String)
  pub log : List Act

-- An async function of the payer.
abbrev pub Paying : Type 0 → Type 0
Paying A = World → Result PayerError A × World

abbrev continue : {A B : Type 0} → Result PayerError A → (A → Paying B) → Paying B
continue (ok a) f w = f a w
continue (err e) f w = (err e, w)

infixl 5 ◌>>=◌ ◌>>◌
unfoldable pub ◌>>=◌ : {A B : Type 0} → Paying A → (A → Paying B) → Paying B
◌>>=◌ m f w = let (r, w') = m w in continue r f w'

abbrev pub ◌>>◌ : {A B : Type 0} → Paying A → Paying B → Paying B
m >> n = m >>= λ _. n

abbrev pub lift : {A : Type 0} → Result PayerError A → Paying A
lift r w = (r, w)

-- `doFetch`, unpaid: nothing is logged.
unfoldable pub fetch : Paying Response
fetch w = elim w.fetches [
  | [] ↦ (err fetch_failed, w)
  | f ∷ fs ↦ elim f [
    | none ↦ (err fetch_failed, record w { fetches = fs })
    | some res ↦ (ok res, record w { fetches = fs })
  ]
]

-- `doFetch` with the payment's headers.
unfoldable pub send_paid : String → Paying Response
send_paid headers w = elim w.fetches [
  | [] ↦ (err fetch_failed, w)
  | f ∷ fs ↦ elim f [
    | none ↦ (err fetch_failed, record w { fetches = fs })
    | some res ↦ (ok res, record w { fetches = fs; log = answered res ∷ w.log })
  ]
]

-- `signer.signPayment(challenge)`. A rejected call is logged too: it may have signed.
unfoldable pub sign_payment : PaymentRequired → Paying String
sign_payment challenge w = elim w.signs [
  | [] ↦ (err sign_failed, record w { log = signed challenge ∷ w.log })
  | s ∷ ss ↦ elim s [
    | none ↦ (err sign_failed, record w { signs = ss; log = signed challenge ∷ w.log })
    | some headers ↦ (ok headers, record w { signs = ss; log = signed challenge ∷ w.log })
  ]
]

unfoldable pub check : String → ℕ → Paying (Unit {0})
check asset amount w = (assert_within_ceiling w.ledger asset (pos amount), w)

unfoldable pub debit : String → ℕ → Paying (Unit {0})
debit asset amount w = elim (record_spend w.ledger asset (pos amount)) [
  | err e ↦ (err e, w)
  | ok l ↦ (ok tt, record w { ledger = l; log = debited asset amount ∷ w.log })
]

unfoldable pub remaining : String → Paying ℤ
remaining asset w = (remaining_for w.ledger asset, w)

-- The part of `readContent` that can reject.
abbrev pub read_content : Response → Result PayerError String
read_content res = elim res.body [ none ↦ err body_unreadable | some text ↦ ok text ]
