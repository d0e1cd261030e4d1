-- ===== src/Guards/Tests.antt =====
-- src/x402-guards.ts: the selection and the classification on concrete challenges and responses.
use vellar_sdk.Prelude.{
  ℕ, pos, String, true, false, some, none, [], ◌∷◌, Option, ◌≡◌, refl, ok, err, Memᴰ, arith, ◌↔◌,
  ◌≢◌, big_int, ◌==◌, nat_eq, string_eq, if◌then◌else◌,
}
use vellar_sdk.Http.{Response}
use vellar_sdk.X402.{
  bool, str, PaymentRequirements, PaymentRequired, X402PayOptions, max_amount_exceeded,
}
use vellar_sdk.Guards.Amount.{parse_amount}
use vellar_sdk.Guards.Select.{options_of, cheapest_from, pay_cheapest, select_requirements}
use vellar_sdk.Guards.Select.Sound.{IsPayable, IsChoice, select-IsChoice}
use vellar_sdk.Guards.Select.Complete.{HasPrice, select_total}
use vellar_sdk.Guards.Settlement.{
  SettleResult, decode_settle_response_header, is_transaction_hash, settled, not_spent,
  classify_settle_result, classify_settlement,
}
use vellar_sdk.Guards.Settlement.Outcomes.{classify-settled_iff}

abbrev option_at : String → PaymentRequirements
option_at amount = record {
  scheme = "exact";
  network = "stellar:testnet";
  asset = "CUSDC";
  amount = str amount;
  pay_to = "GPAYEE";
  max_timeout_seconds = none;
  extra = some (("areFeesSponsored", bool true) ∷ []);
}

abbrev challenge : PaymentRequired
challenge = record { x402_version = 2; accepts = some (option_at "250" ∷ option_at "100" ∷ []) }

abbrev options : X402PayOptions
options = record { max_amount = pos 200; allowed_assets = some ("CUSDC" ∷ []) }

cheapest_is_selected :
    select_requirements challenge options "stellar:testnet" ≡ ok (option_at "100")
unfolding select_requirements cheapest_from pay_cheapest parse_amount big_int
cheapest_is_selected = refl

over_the_limit :
    select_requirements challenge (record options { max_amount = pos 99 }) "stellar:testnet"
    ≡ err (max_amount_exceeded 100 (pos 99) "CUSDC")
unfolding select_requirements cheapest_from pay_cheapest parse_amount big_int
over_the_limit = refl

select-IsChoice_example : (n : ℕ) × IsChoice challenge options "stellar:testnet" (option_at "100") n
select-IsChoice_example =
    select-IsChoice challenge options "stellar:testnet" (option_at "100") cheapest_is_selected

price_250 : parse_amount (str "250") ≡ ok 250
unfolding parse_amount big_int
price_250 = refl

price_100 : parse_amount (str "100") ≡ ok 100
unfolding parse_amount big_int
price_100 = refl

HasPrice-offered :
    (b : PaymentRequirements)
    → Memᴰ b (options_of challenge)
    → IsPayable options "stellar:testnet" b
    → HasPrice b
HasPrice-offered b (Memᴰ.head e) h = rw e (250, price_250)
HasPrice-offered b (Memᴰ.tail (Memᴰ.head e)) h = rw e (100, price_100)
HasPrice-offered b (Memᴰ.tail (Memᴰ.tail m)) h = elim m [ ]

IsPayable-option : IsPayable options "stellar:testnet" (option_at "100")
IsPayable-option = record { exact = refl; network = refl; fees = refl; allowed = refl }

select_total_example :
    (r : PaymentRequirements) × (select_requirements challenge options "stellar:testnet" ≡ ok r)
select_total_example =
    select_total challenge options "stellar:testnet" (option_at "100") 100 HasPrice-offered
      (Memᴰ.tail (Memᴰ.head refl)) IsPayable-option price_100 (omega arith)

abbrev hash : String
hash = "0123456789abcdef0123456789abcdef0123456789ABCDEF0123456789abcdef"

-- What each of three headers decodes to.
abbrev decode : String → Option SettleResult
decode text =
    if text == "settled"
    then some (record {
      success = some true;
      transaction = some hash;
      payer = some "CWALLET";
      error_reason = none;
    })
    else if text == "unspent"
    then some (record {
      success = some false;
      transaction = some "";
      payer = none;
      error_reason = some "bad_sequence";
    })
    else if text == "failed"
    then some (record {
      success = some false;
      transaction = some hash;
      payer = none;
      error_reason = some "tx_failed";
    })
    else none

abbrev answer : String → Response
answer text = record {
  status = 200;
  header = λ name. if name == "PAYMENT-RESPONSE" then some text else none;
  body = some "";
}

settled_response : classify_settlement decode (answer "settled") ≡ settled hash (some "CWALLET")
unfolding classify_settlement classify_settle_result decode_settle_response_header
    is_transaction_hash
settled_response = refl

unspent_response : classify_settlement decode (answer "unspent") ≡ not_spent (some "bad_sequence")
unfolding classify_settlement classify_settle_result decode_settle_response_header
    is_transaction_hash
unspent_response = refl

classify-settled_iff_example :
    (classify_settlement decode (answer "settled") ≡ settled hash (some "CWALLET")) ↔ (
      (settle : SettleResult) × (decode_settle_response_header decode (answer "settled")
        ≡ some settle)
      × (settle.success ≢ some false)
      × (settle.transaction ≡ some hash)
      × (is_transaction_hash hash ≡ true)
      × (settle.payer ≡ some "CWALLET"))
classify-settled_iff_example = classify-settled_iff decode (answer "settled") hash (some "CWALLET")

abbrev failed_result : SettleResult
failed_result = record {
  success = some false;
  transaction = some hash;
  payer = none;
  error_reason = some "tx_failed";
}

failed_header : decode_settle_response_header decode (answer "failed") ≡ some failed_result
unfolding decode_settle_response_header
failed_header = refl
