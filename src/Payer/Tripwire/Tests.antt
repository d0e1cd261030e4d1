-- ===== src/Payer/Tripwire/Tests.antt =====
-- packages/mcp-x402-payer/src/signer.ts: a signer under a client that selects the last option.
use vellar_sdk.Prelude.{
  ℕ, String, List, [], ◌∷◌, Option, none, some, ok, err, ◌≡◌, refl, ◌>>=◌, >>=-eq-ok, ◌==◌, nat_eq,
  if◌then◌else◌,
}
use vellar_sdk.Signer.AuthEntry.{assert_auth_entry_invocation}
use vellar_sdk.Client.{sign_entries, sign_auth}
use vellar_sdk.Payer.Search.{big_int_text, big_int_trimmed, big_int_prefixed, digits_in, value_in}
use vellar_sdk.Payer.Scheme.{
  create_payment_payload, SchemeRequirement, network_passphrase, expiration_ledgers_for,
}
use vellar_sdk.Payer.Scheme.Tests.{requirement, host}
use vellar_sdk.Payer.Tripwire.{
  Library, library_failed, not_one_option, selection_mismatch, before_payment_creation,
  sign_payment, sign_payments, smart_account_scheme,
}
use vellar_sdk.Payer.Tripwire.Cleared.{RunsHook, AreCleared, sign_payments-AreCleared}

abbrev last : List ℕ → Option ℕ
last [] = none
last (x ∷ []) = some x
last (x ∷ y ∷ xs) = last (y ∷ xs)

abbrev library : Library
library hook scheme accepts = elim (last accepts) [
  | none ↦ err library_failed
  | some selected ↦ (hook selected >>= λ _. scheme selected)
]

library-RunsHook : RunsHook library
library-RunsHook hook scheme accepts payload h = selected-RunsHook (last accepts) h
  where
    selected-RunsHook :
        (o : Option ℕ)
        → elim o [
          | none ↦ err library_failed
          | some selected ↦ (hook selected >>= λ _. scheme selected)
        ]
          ≡ ok payload
        → (selected : ℕ) × (hook selected ≡ ok tt) × (scheme selected ≡ ok payload)
    selected-RunsHook none e = cc e
    selected-RunsHook (some selected) e =
        let (u, passed, made) = >>=-eq-ok (hook selected) _ e in (selected, passed, made)

abbrev heap : ℕ → SchemeRequirement
heap r = if r == 7 then requirement else record requirement { network = "stellar:other" }

abbrev encode_header : String → String
encode_header payload = payload

signs_one :
    sign_payments library encode_header
      (smart_account_scheme host heap)
      none
      ((7 ∷ []) ∷ (7 ∷ 8 ∷ []) ∷ [])
    ≡ ok "until 1058" ∷ err (not_one_option 2) ∷ []
unfolding sign_payments sign_payment before_payment_creation smart_account_scheme
    create_payment_payload network_passphrase expiration_ledgers_for big_int_text big_int_trimmed
    big_int_prefixed digits_in value_in sign_auth sign_entries assert_auth_entry_invocation
signs_one = refl

refuses_another : before_payment_creation (some 7) 8 ≡ err selection_mismatch
unfolding before_payment_creation
refuses_another = refl

sign_payments-AreCleared_example :
    AreCleared host heap library library-RunsHook encode_header ((7 ∷ []) ∷ (7 ∷ 8 ∷ []) ∷ []) (
      sign_payments library encode_header
        (smart_account_scheme host heap)
        none
        ((7 ∷ []) ∷ (7 ∷ 8 ∷ []) ∷ []))
sign_payments-AreCleared_example =
    sign_payments-AreCleared host heap library library-RunsHook encode_header none
      ((7 ∷ []) ∷ (7 ∷ 8 ∷ []) ∷ [])
