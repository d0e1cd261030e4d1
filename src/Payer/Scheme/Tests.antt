-- ===== src/Payer/Scheme/Tests.antt =====
-- packages/mcp-x402-payer/src/smart-account-scheme.ts: a payload that is created, and refusals.
use vellar_sdk.Prelude.{
  pos, String, true, some, none, [], ◌∷◌, ok, err, ◌≡◌, refl, ◌==◌, string_eq, nat_eq, List,
  if◌then◌else◌,
}
use vellar_sdk.Signer.Entry.{
  Entry, address_credentials, other_credentials, invocation, contract_fn, no_more,
}
use vellar_sdk.Signer.AuthEntry.{assert_auth_entry_invocation}
use vellar_sdk.Client.{sign_entries, sign_auth, no_wallet_entry}
use vellar_sdk.Payer.Search.{big_int_text, big_int_trimmed, big_int_prefixed, digits_in, value_in}
use vellar_sdk.Payer.Scheme.{
  SchemeRequirement, SchemeHost, expiration_ledgers_for, network_passphrase, create_payment_payload,
  unworkable_timeout, entries_refused,
}
use vellar_sdk.Payer.Scheme.Payload.{IsRequired, create_payload-IsRequired}

abbrev pub requirement : SchemeRequirement
requirement = record {
  network = "stellar:testnet";
  asset = "CUSDC";
  amount = "100";
  pay_to = "GPAYEE";
  max_timeout_seconds = 86400;
  are_fees_sponsored = some true;
}

abbrev transfer : Entry String
transfer = record {
  credentials = address_credentials "CWALLET" 0 [];
  root_invocation =
      invocation (contract_fn "CUSDC" "transfer" ("CWALLET" ∷ "GPAYEE" ∷ "100" ∷ [])) no_more;
}

abbrev until : List (Entry String) → String
until [] = "none"
until (e ∷ es) = elim e.credentials [
  | other_credentials name ↦ until es
  | address_credentials a n s ↦ if n == 1058 then "until 1058" else "until another"
]

abbrev pub host : SchemeHost String
host = record {
  address = "CWALLET";
  sign = λ passphrase n e. ok (record e { credentials = address_credentials "CWALLET" n [] });
  address_of = λ v. some v;
  number_of = λ v. if v == "100" then some (pos 100) else none;
  assemble = λ passphrase x.
      some (record transfer { credentials = other_credentials "sourceAccount" } ∷ transfer ∷ []);
  latest_ledger = some 1000;
  simulate = λ entries. ok tt;
  to_xdr = until;
}

creates : create_payment_payload host requirement ≡ ok "until 1058"
unfolding create_payment_payload network_passphrase expiration_ledgers_for big_int_text
    big_int_trimmed big_int_prefixed digits_in value_in sign_auth sign_entries
    assert_auth_entry_invocation
creates = refl

create_payload-IsRequired_example : IsRequired host requirement "until 1058"
create_payload-IsRequired_example = create_payload-IsRequired host requirement "until 1058" creates

-- A timeout of 30 seconds is refused, as one below 25 seconds.
refuses_30_seconds : expiration_ledgers_for 30 ≡ err (unworkable_timeout 30 4)
unfolding expiration_ledgers_for
refuses_30_seconds = refl

refuses_no_entry :
    create_payment_payload (record host { assemble = λ passphrase x. some [] }) requirement
    ≡ err (entries_refused no_wallet_entry)
unfolding create_payment_payload network_passphrase expiration_ledgers_for big_int_text
    big_int_trimmed big_int_prefixed digits_in value_in sign_auth sign_entries
refuses_no_entry = refl
