-- ===== src/Cli/Tests.antt =====
-- packages/cli/src/commands/pay.ts: a seller that offers 200 before 100, under a limit of 150.
use vellar_sdk.Prelude.{
  pos, String, true, Option, none, some, List, [], ◌∷◌, ok, err, ◌≡◌, ◌⊎◌, refl, codes, ◌==◌,
  string_eq, if◌then◌else◌,
}
use vellar_sdk.Http.{Response}
use vellar_sdk.Payer.Search.{big_int_text, big_int_trimmed, big_int_prefixed, digits_in, value_in}
use vellar_sdk.Cli.{
  CliRequirement, CliChallenge, decode_challenge, price_of, cheapest_option, cheapest_exact,
  select_requirement, chosen,
}
use vellar_sdk.Cli.Pay.{
  after_probe, after_paid, sign_and_send, PayOptions, PayRefusal, ended, method_not_allowed,
  sent_request, had_signed, CliWorld, Checked, network_id, request_body, check_options,
  check_option, approve, probe, paid_request, challenge_in, run_pay,
}
use vellar_sdk.Cli.Spends.{PayRun, run_pay-PayRun}

abbrev offer : String → CliRequirement
offer amount = record {
  scheme = some "exact";
  network = some "stellar:testnet";
  amount = some amount;
  asset = some "CUSDC";
  are_fees_sponsored = some true;
}

abbrev challenge : CliChallenge
challenge = record { accepts = some (offer "200" ∷ offer "100" ∷ []) }

abbrev asks : Response
asks = record {
  status = 402;
  header = λ name. if name == "payment-required" then some "challenge" else none;
  body = some "";
}

abbrev amount_or_none : CliRequirement → String
amount_or_none a = elim a.amount [ none ↦ "none" | some t ↦ t ]

abbrev first_payload : Option (List CliRequirement) → Option String
first_payload none = none
first_payload (some []) = none
first_payload (some (a ∷ rest)) = some (amount_or_none a)

abbrev world : CliWorld
world = record {
  read_file = λ path. none;
  is_valid_secret = λ s. s == "S";
  is_json = λ text. true;
  fetch = λ request. elim request.payment [
    | none ↦ some asks
    | some header ↦ some (record { status = 200; header = λ name. none; body = some "content" })
  ];
  from_base64 = λ text. none;
  parse = λ text. if text == "challenge" then some (some challenge) else none;
  create_payload = λ ch. first_payload ch.accepts;
  encode_header = λ payload. payload;
}

abbrev options : PayOptions
options = record {
  secret = some "S";
  secret_file = none;
  max = "150";
  network = "testnet";
  method = codes "get";
  body = none;
}

abbrev checked : Checked
checked = record {
  network = "stellar:testnet";
  max_amount = pos 150;
  method = codes "GET";
  body = none;
}

passes : check_options world options ≡ ok checked
unfolding check_options network_id request_body big_int_text big_int_trimmed big_int_prefixed
    digits_in value_in
passes = refl

refuses_head :
    check_options world (record options { method = codes "HEAD" }) ≡ err method_not_allowed
unfolding check_options network_id request_body big_int_text big_int_trimmed big_int_prefixed
    digits_in value_in
refuses_head = refl

decodes : challenge_in world asks ≡ ok challenge
unfolding challenge_in decode_challenge
decodes = refl

selects :
    select_requirement (offer "200" ∷ offer "100" ∷ []) "stellar:testnet" ≡ chosen (offer "100")
unfolding select_requirement cheapest_exact cheapest_option price_of big_int_text big_int_trimmed
    big_int_prefixed digits_in value_in
selects = refl

approves : approve checked challenge ≡ ok (offer "100")
unfolding approve check_option select_requirement cheapest_exact cheapest_option price_of
    big_int_text big_int_trimmed big_int_prefixed digits_in value_in
approves = refl

priced : price_of (offer "200") ≡ some (pos 200)
unfolding price_of big_int_text big_int_trimmed big_int_prefixed digits_in value_in
priced = refl

run_pay-PayRun_example :
    ((e : PayRefusal) × (check_options world options ≡ err e)
      × (run_pay world options ≡ ([], ended e)))
    ⊎ ((c : Checked) × (check_options world options ≡ ok c)
        × PayRun world c (run_pay world options).0)
run_pay-PayRun_example = run_pay-PayRun world options

-- Where the library pays the first option of a challenge, as it does in this world, the option that is
-- approved is not the one that is paid for.
pays_the_first :
    (run_pay world options).0
    ≡ sent_request (probe checked)
      ∷ had_signed challenge
      ∷ sent_request (paid_request world checked "200")
      ∷ []
unfolding run_pay after_probe challenge_in sign_and_send check_options network_id big_int_text
    big_int_trimmed big_int_prefixed digits_in value_in request_body decode_challenge approve
    select_requirement cheapest_exact cheapest_option price_of check_option after_paid
pays_the_first = refl
