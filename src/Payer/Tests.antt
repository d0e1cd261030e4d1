-- ===== src/Payer/Tests.antt =====
-- packages/mcp-x402-payer/src: the ledger and the payment loop on concrete scripts.
use vellar_sdk.Prelude.{
  List, Result, map, ℕ, ◌≤◌, pos, ◌+ℤ◌, ◌-ℤ◌, String, true, false, none, some, [], ◌∷◌, ok, ◌≡◌,
  refl, ◌⊎◌, arith, big_int, ◌==◌, string_eq, if◌then◌else◌,
}
use vellar_sdk.Http.{Response}
use vellar_sdk.X402.{bool, str, PaymentRequirements, PaymentRequired}
use vellar_sdk.Guards.Amount.{parse_amount}
use vellar_sdk.Guards.Select.{select_requirements, cheapest_from, pay_cheapest}
use vellar_sdk.Guards.Select.Sound.{IsChoice}
use vellar_sdk.Guards.Settlement.{
  settled, decode_payment_required, decode_settle_response_header, is_retryable_settle_failure,
  is_transaction_hash, classify_settle_result, classify_settlement,
}
use vellar_sdk.Payer.Errors.{PayerError}
use vellar_sdk.Payer.Ledger.{
  Amounts, get, put, SpendLedger, create_spend_ledger, ceiling_for, spent_for,
  assert_within_ceiling, record_spend, remaining_for,
}
use vellar_sdk.Payer.Ledger.Spent.{IsWithin, IsWithin-create}
use vellar_sdk.Payer.Wire.{
  assert_v2_challenge, narrow_to, object, Codecs, signed, answered, debited, World, fetch,
  send_paid, sign_payment, check, debit, remaining, ◌>>=◌,
}
use vellar_sdk.Payer.Attempt.{PayResult, after_rejection, after_acceptance, attempt_once}
use vellar_sdk.Payer.Pay.{
  PayerConfig, pay_options, clear_one_option, attempts_from, pay_cleared, challenge_of, after_first,
  pay_exclusively,
}
use vellar_sdk.Payer.Pay.Loop.{signatures}
use vellar_sdk.Payer.Pay.Payment.{IsOffered}
use vellar_sdk.Payer.Pay.Guarantees.{
  IsCareful, OnlySigned, pay-IsWithin, pay-IsCareful, pay-signs-IsChoice,
}
use vellar_sdk.Payer.Mutex.{turn, settles, Call, start, Runs, here, takes, enters}
use vellar_sdk.Payer.Mutex.Serial.{complete, sequential}
use vellar_sdk.Payer.Mutex.Progress.{Runs-settled}
use vellar_sdk.Payer.Pay.Concurrent.{
  PayCall, PayFiber, pay_alone, pay_each, ArePays, concurrent_pays-IsWithin,
}
use vellar_sdk.Payer.Pay.Outcome.{SpentAtMost, IsReceipt, pay-spent_for, pay-IsReceipt}

abbrev pub ceilings : Amounts
ceilings = ("CUSDC", pos 1000) ∷ ("CEURC", pos 50) ∷ []

abbrev pub ledger : SpendLedger
ledger = create_spend_ledger ceilings

abbrev spent : SpendLedger
spent = record { ceilings = ceilings; spent = ("CUSDC", pos 100) ∷ [] }

pub IsWithin-ledger : IsWithin ledger
unfolding get
IsWithin-ledger = IsWithin-create ceilings (λ k c e. ground arith)

check_passes : assert_within_ceiling ledger "CUSDC" (pos 100) ≡ ok tt
unfolding assert_within_ceiling ceiling_for spent_for get ◌+ℤ◌
check_passes = refl

spend_is_recorded : record_spend ledger "CUSDC" (pos 100) ≡ ok spent
unfolding record_spend ceiling_for spent_for get put ◌+ℤ◌
spend_is_recorded = refl

abbrev pub offer : PaymentRequirements
offer = record {
  scheme = "exact";
  network = "stellar:testnet";
  asset = "CUSDC";
  amount = str "100";
  pay_to = "GPAYEE";
  max_timeout_seconds = none;
  extra = some (("areFeesSponsored", bool true) ∷ []);
}

abbrev pub challenge : PaymentRequired
challenge = record { x402_version = 2; accepts = some (offer ∷ []) }

abbrev pub hash : String
hash = "0123456789abcdef0123456789abcdef0123456789ABCDEF0123456789abcdef"

-- What the headers of the script decode to.
abbrev pub codecs : Codecs
codecs = record {
  challenge = λ text. if text == "challenge" then some (object challenge) else none;
  rejection = λ text. none;
  settle = λ text.
      if text == "settled"
      then some (record {
        success = some true;
        transaction = some hash;
        payer = some "CWALLET";
        error_reason = none;
      })
      else if text == "unspent"
      then some (record {
        success = some false;
        transaction = some "";
        payer = none;
        error_reason = some "bad_sequence";
      })
      else none;
}

abbrev pub config : PayerConfig
config = record {
  caip2 = "stellar:testnet";
  allowed_assets = "CUSDC" ∷ "CEURC" ∷ [];
  signer_address = "CWALLET";
}

abbrev pub answer : ℕ → String → String → Response
answer status header text = record {
  status = status;
  header = λ name. if name == header then some text else none;
  body = some "content";
}

-- The endpoint asks for a payment, refuses the first without spending it, and settles the second.
abbrev pub world : World
world = record {
  ledger = ledger;
  fetches =
      some (answer 402 "PAYMENT-REQUIRED" "challenge")
      ∷ some (answer 402 "PAYMENT-RESPONSE" "unspent")
      ∷ some (answer 200 "PAYMENT-RESPONSE" "settled")
      ∷ [];
  signs = some "first" ∷ some "second" ∷ [];
  log = [];
}

abbrev receipt : PayResult
receipt = record {
  paid = true;
  content = "content";
  settlement =
      some (record { transaction = hash; payer = "CWALLET"; asset = "CUSDC"; amount = 100 });
  attempts = some 2;
  session_remaining = some (pos 900);
  status = 200;
}

abbrev after : World
after = record {
  ledger = spent;
  fetches = [];
  signs = [];
  log =
      debited "CUSDC" 100
      ∷ answered (answer 200 "PAYMENT-RESPONSE" "settled")
      ∷ signed challenge
      ∷ answered (answer 402 "PAYMENT-RESPONSE" "unspent")
      ∷ signed challenge
      ∷ [];
}

pays_on_the_second_attempt : pay_exclusively codecs config "150" world ≡ (ok receipt, after)
unfolding pay_exclusively ◌>>=◌ parse_amount fetch after_first challenge_of decode_payment_required
    assert_v2_challenge clear_one_option select_requirements pay_cheapest cheapest_from big_int
    pay_cleared check assert_within_ceiling ceiling_for get put classify_settle_result
    classify_settlement decode_settle_response_header is_retryable_settle_failure
    is_transaction_hash after_acceptance after_rejection attempt_once record_spend remaining_for
    spent_for attempts_from debit remaining send_paid sign_payment ◌+ℤ◌ ◌-ℤ◌
pays_on_the_second_attempt = refl

pay-IsWithin_example : IsWithin (pay_exclusively codecs config "150" world).1.ledger
pay-IsWithin_example = pay-IsWithin codecs config "150" world refl IsWithin-ledger

pay-IsCareful_example :
    IsCareful codecs (pay_exclusively codecs config "150" world).1.log
    × (signatures (pay_exclusively codecs config "150" world).1.log ≤ 3)
pay-IsCareful_example = pay-IsCareful codecs config "150" world refl

pay-signs-IsChoice_example :
    (signatures (pay_exclusively codecs config "150" world).1.log ≡ 0)
    ⊎ ((max : ℕ) × (challenge : PaymentRequired) × (chosen : PaymentRequirements) × (amount : ℕ)
        × (parse_amount (str "150") ≡ ok max)
        × IsOffered codecs config world.fetches challenge
        × IsChoice challenge (pay_options codecs config (pos max)) "stellar:testnet" chosen amount
        × OnlySigned (narrow_to challenge chosen) (pay_exclusively codecs config "150" world).1.log)
pay-signs-IsChoice_example = pay-signs-IsChoice codecs config "150" world refl

pay-spent_for_example :
    SpentAtMost codecs config "150" "CUSDC" ledger
      (pay_exclusively codecs config "150" world).1.ledger
pay-spent_for_example = pay-spent_for codecs config "150" world refl "CUSDC"

result_is_receipt : (pay_exclusively codecs config "150" world).0 ≡ ok receipt
result_is_receipt = rw pays_on_the_second_attempt refl

pay-IsReceipt_example :
    IsReceipt codecs config "150" world (pay_exclusively codecs config "150" world).1 receipt
pay-IsReceipt_example = pay-IsReceipt codecs config "150" world refl receipt result_is_receipt

settled_response :
    classify_settlement codecs.settle (answer 500 "PAYMENT-RESPONSE" "settled")
    ≡ settled hash (some "CWALLET")
unfolding classify_settlement classify_settle_result decode_settle_response_header
    is_transaction_hash
settled_response = refl

abbrev pay_call : PayCall
pay_call = record { max_amount = "150"; fetches = world.fetches; signs = world.signs }

-- A payment in one turn.
abbrev pay_fiber : PayFiber
pay_fiber =
    turn (λ l. (pay_alone codecs config pay_call l).0)
      λ l. settles (pay_alone codecs config pay_call l).1

ArePays-two : ArePays codecs config (pay_fiber ∷ pay_fiber ∷ []) (pay_call ∷ pay_call ∷ [])
unfolding complete
ArePays-two = (λ l. refl, (λ l. refl, tt))

abbrev twice : SpendLedger × List (Result PayerError PayResult)
twice = sequential (pay_fiber ∷ pay_fiber ∷ []) ledger

-- The second payment is called while the first runs.
two_settle : Runs ledger [] twice.0 (map Call.settled twice.1) (pay_fiber ∷ pay_fiber ∷ [])
two_settle = Runs-settled (enters pay_fiber (takes (enters pay_fiber here) start))

concurrent_pays-IsWithin_example :
    IsWithin twice.0
    × (◌≡◌ {A = SpendLedger × List (Result PayerError PayResult)}
        (twice.0, twice.1)
        (pay_each codecs config (pay_call ∷ pay_call ∷ []) ledger))
concurrent_pays-IsWithin_example =
    concurrent_pays-IsWithin codecs config (pay_fiber ∷ pay_fiber ∷ []) (pay_call ∷ pay_call ∷ [])
      ledger twice.0 twice.1 ArePays-two IsWithin-ledger two_settle
