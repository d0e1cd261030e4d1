-- ===== src/Payer/Scheme.antt =====
-- packages/mcp-x402-payer/src/smart-account-scheme.ts: the payment scheme for a smart account. The
-- stellar-sdk (assembly, simulation, the RPC and XDR) is a host; the warning to stderr is left out.
pub mod Payload
pub mod Tests
use vellar_sdk.Prelude.{
  ℕ, ◌+◌, ◌-◌, ◌/◌, min, max, ℤ, pos, String, Bool, true, false, not, Option, none, some, List,
  Result, ok, err, ◌>>=◌, ◌>>◌, throw_if, ltb, ◌==◌, string_eq, if◌then◌else◌,
}
use vellar_sdk.Signer.Entry.{Entry}
use vellar_sdk.Signer.Sign.{SignError}
use vellar_sdk.Signer.AuthEntry.{ExpectedInvocation}
use vellar_sdk.Client.{ClientError, Services, sign_auth}
use vellar_sdk.Payer.Search.{big_int_text}

-- What the scheme reads of a requirement. `extra?.areFeesSponsored` is none where it is missing.
pub record SchemeRequirement : Type 0 where
  pub network : String
  pub asset : String
  pub amount : String
  pub pay_to : String
  pub max_timeout_seconds : ℕ
  pub are_fees_sponsored : Option Bool

pub data SchemeError : Type 0 where
  unsupported_network fees_not_sponsored not_an_amount assembly_failed no_ledger : SchemeError
  unworkable_timeout : ℕ → ℕ → SchemeError
  entries_refused : ClientError → SchemeError
  auth_refused : String → SchemeError

abbrev pub estimated_ledger_seconds : ℕ
estimated_ledger_seconds = 5

abbrev pub expiration_safety_margin : ℕ
expiration_safety_margin = 2

abbrev pub min_expiration_ledgers : ℕ
min_expiration_ledgers = 3

abbrev pub max_expiration_seconds : ℕ
max_expiration_seconds = 300

abbrev pub min_viable_expiration_ledgers : ℕ
min_viable_expiration_ledgers = 5

-- `Math.ceil(seconds / ESTIMATED_LEDGER_SECONDS)`.
abbrev pub ledgers_in : ℕ → ℕ
ledgers_in seconds = (seconds + 4) / estimated_ledger_seconds

unfoldable pub expiration_ledgers_for : ℕ → Result SchemeError ℕ
expiration_ledgers_for max_timeout_seconds =
    let window = ledgers_in (min max_timeout_seconds max_expiration_seconds) in
    let offset = max (window - expiration_safety_margin) min_expiration_ledgers in
    if ltb offset min_viable_expiration_ledgers
    then err (unworkable_timeout max_timeout_seconds offset)
    else ok offset

-- `NETWORK_PASSPHRASE[network]`.
unfoldable pub network_passphrase : String → Option String
network_passphrase network =
    if network == "stellar:testnet"
    then some "Test SDF Network ; September 2015"
    else if network == "stellar:pubnet"
    then some "Public Global Stellar Network ; September 2015"
    else none

-- The wallet of the signer, its signatures (by passphrase and expiration ledger), and what the
-- stellar-sdk answers.
pub record SchemeHost (V : Type 0) : Type 0 where
  pub address : String
  pub sign : String → ℕ → Entry V → Result SignError (Entry V)
  pub address_of : V → Option String
  pub number_of : V → Option ℤ
  -- the auth entries of the assembled `transfer`, under a passphrase
  pub assemble : String → ExpectedInvocation → Option (List (Entry V))
  pub latest_ledger : Option ℕ
  -- the simulation of the signed entries, which may fail with a detail, and the transaction
  pub simulate : List (Entry V) → Result String (Unit {0})
  pub to_xdr : List (Entry V) → String

abbrev pub or_error : {A : Type 0} → SchemeError → Option A → Result SchemeError A
or_error e none = err e
or_error e (some a) = ok a

module _ {V : Type 0} (host : SchemeHost V) where
  -- The loop over the entries is that of the SDK's client, which uses these of its services.
  abbrev pub services_at : String → Services V
  services_at passphrase = record {
    address = host.address;
    caip2 = "";
    address_of = host.address_of;
    number_of = host.number_of;
    simulate = λ _. none;
    latest_ledger = 0;
    expiration_ceiling = none;
    budget = λ _. ok tt;
    sign = host.sign passphrase;
    header_for = λ _ _. "";
    challenge = λ _. none;
    rejection = λ _. none;
    settle = λ _. none;
    send = λ _. none;
  }

  abbrev pub expected_transfer : SchemeRequirement → ℤ → ExpectedInvocation
  expected_transfer requirement amount = record {
    contract = requirement.asset;
    function_name = "transfer";
    from = host.address;
    to = requirement.pay_to;
    amount = amount;
  }

  abbrev pub signed_entries :
      String → ExpectedInvocation → ℕ → List (Entry V) → Result SchemeError (List (Entry V))
  signed_entries passphrase expected expiration auth =
      elim (sign_auth (services_at passphrase) expected expiration auth) [
        | err e ↦ err (entries_refused e)
        | ok out ↦ ok out
      ]

  abbrev pub re_simulated : List (Entry V) → Result SchemeError (Unit {0})
  re_simulated entries = elim (host.simulate entries) [
    | err detail ↦ err (auth_refused detail)
    | ok u ↦ ok u
  ]

  -- The transaction of the payload.
  unfoldable pub create_payment_payload : SchemeRequirement → Result SchemeError String
  create_payment_payload requirement = do
    passphrase ← or_error unsupported_network (network_passphrase requirement.network)
    throw_if (elim requirement.are_fees_sponsored [ none ↦ true | some b ↦ not b ])
        fees_not_sponsored
    amount ← or_error not_an_amount (big_int_text requirement.amount)
    let expected = expected_transfer requirement amount
    auth ← or_error assembly_failed (host.assemble passphrase expected)
    latest ← or_error no_ledger host.latest_ledger
    offset ← expiration_ledgers_for requirement.max_timeout_seconds
    out ← signed_entries passphrase expected (latest + offset) auth
    re_simulated out
    ok (host.to_xdr out)
