-- ===== src/Client/Tests.antt =====
-- src/x402-client.ts: a fetch that is asked for 100 units and pays them.
use vellar_sdk.Prelude.{
  ℕ, pos, String, true, false, none, some, [], ◌∷◌, ok, ◌≡◌, refl, ◌⊎◌, big_int, ◌==◌, string_eq,
  nat_eq, if◌then◌else◌,
}
use vellar_sdk.Http.{Response}
use vellar_sdk.X402.{bool, str, PaymentRequirements, X402PayOptions}
use vellar_sdk.Guards.Amount.{parse_amount}
use vellar_sdk.Guards.Select.{cheapest_from, pay_cheapest, select_requirements}
use vellar_sdk.Guards.Settlement.{
  decode_payment_required, decode_settle_response_header, decode_settlement_header,
}
use vellar_sdk.Signer.Entry.{
  Entry, address_credentials, other_credentials, invocation, contract_fn, no_more,
}
use vellar_sdk.Signer.AuthEntry.{assert_auth_entry_invocation}
use vellar_sdk.Client.{
  Services, sign_entries, sign_auth, expected_for, build_at, build_signed_payment, X402Response,
  read_settlement, pay_with, answer_challenge, x402_fetch,
}
use vellar_sdk.Client.Entries.{AreSigned, sign_auth-AreSigned}
use vellar_sdk.Client.Paid.{Bought, x402_fetch-Bought}

abbrev offer : PaymentRequirements
offer = record {
  scheme = "exact";
  network = "stellar:testnet";
  asset = "CUSDC";
  amount = str "100";
  pay_to = "GPAYEE";
  max_timeout_seconds = some 60;
  extra = some (("areFeesSponsored", bool true) ∷ []);
}

-- Arguments are texts here.
abbrev transfer : Entry String
transfer = record {
  credentials = address_credentials "CWALLET" 0 [];
  root_invocation =
      invocation (contract_fn "CUSDC" "transfer" ("CWALLET" ∷ "GPAYEE" ∷ "100" ∷ [])) no_more;
}

abbrev source_account : Entry String
source_account = record transfer { credentials = other_credentials "sourceAccount" }

abbrev answer : ℕ → String → String → Response
answer status header text = record {
  status = status;
  header = λ name. if name == header then some text else none;
  body = some "content";
}

abbrev services : Services String
services = record {
  address = "CWALLET";
  caip2 = "stellar:testnet";
  address_of = λ v. some v;
  number_of = λ v. if v == "100" then some (pos 100) else none;
  simulate = λ q. some (source_account ∷ transfer ∷ []);
  latest_ledger = 1000;
  expiration_ceiling = none;
  budget = λ q. ok tt;
  sign =
      λ expiration e. ok (record e { credentials = address_credentials "CWALLET" expiration [] });
  header_for = λ q entries. "payment";
  challenge = λ text. some (record { x402_version = 2; accepts = some (offer ∷ []) });
  rejection = λ text. none;
  settle = λ text. some (record {
    success = some true;
    transaction = some "hash";
    payer = none;
    error_reason = none;
  });
  send = λ header. elim header [
    | none ↦ some (answer 402 "PAYMENT-REQUIRED" "challenge")
    | some h ↦ some (answer 200 "PAYMENT-RESPONSE" "settled")
  ];
}

abbrev signed : Entry String
signed = record transfer { credentials = address_credentials "CWALLET" 1010 [] }

signs_its_own :
    sign_auth services (expected_for services offer 100) 1010 (source_account ∷ transfer ∷ [])
    ≡ ok (source_account ∷ signed ∷ [])
unfolding sign_auth sign_entries assert_auth_entry_invocation
signs_its_own = refl

sign_auth-AreSigned_example :
    AreSigned services
      (expected_for services offer 100)
      1010
      (source_account ∷ transfer ∷ [])
      (source_account ∷ signed ∷ [])
sign_auth-AreSigned_example =
    sign_auth-AreSigned services (expected_for services offer 100) 1010
      (source_account ∷ transfer ∷ []) (source_account ∷ signed ∷ []) signs_its_own

abbrev options : X402PayOptions
options = record { max_amount = pos 150; allowed_assets = none }

-- The recipient is given as the payer, since the header names none.
abbrev receipt : X402Response
receipt = record {
  response = answer 200 "PAYMENT-RESPONSE" "settled";
  paid = true;
  settlement =
      some (record { transaction = "hash"; payer = "GPAYEE"; asset = "CUSDC"; amount = 100 });
}

pays : x402_fetch services options ≡ ok receipt
unfolding x402_fetch answer_challenge decode_payment_required select_requirements pay_cheapest
    cheapest_from parse_amount big_int build_signed_payment build_at sign_auth sign_entries
    assert_auth_entry_invocation pay_with read_settlement decode_settlement_header
    decode_settle_response_header
pays = refl

x402_fetch-Bought_example :
    ((true ≡ false) × (receipt.settlement ≡ none) × (services.send none ≡ some receipt.response))
    ⊎ Bought services options receipt
x402_fetch-Bought_example = x402_fetch-Bought services options receipt pays
