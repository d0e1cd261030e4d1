-- ===== src/Wallet/Tests.antt =====
-- src/client.ts and what it composes: tests on one host.
use vellar_sdk.Prelude.{
  pos, String, Bool, true, false, not, Option, none, some, List, [], ◌∷◌, ok, ◌≡◌, refl, ◌==◌,
  string_eq,
}
use vellar_sdk.Session.Value.{testnet}
use vellar_sdk.Wallet.Host.{
  text, with_xdr, found, Act, minted, kit_sign, built, submitted, instance_deployed, attached,
  recorded, resumed, Host, OpenSession, Wallet, ◌>>=◌,
}
use vellar_sdk.Wallet.Connector.{ConnectorOptions, default_signed_to_xdr, session_for}
use vellar_sdk.Wallet.Connector.Rotation.{
  MintsFresh, IsRotating, WasMinted, connect_all, connect_all-IsRotating,
}
use vellar_sdk.Wallet.Payments.{prepare_payment, assert_payment, confirm}
use vellar_sdk.Wallet.Agents.{
  MintAgentInput, require_session, resume_key, is_public_key, is_contract_id, validate_mint,
  validate_grants, validate_grant, validate_policies,
}
use vellar_sdk.Wallet.Policies.{deploy_policy, record_deployment}
use vellar_sdk.Wallet.Client.{VellarWalletConfig, PayInput, create_vellar_wallet, pay}
use vellar_sdk.Wallet.Client.Pays.{PayEnds, pay-PayEnds}
use vellar_sdk.Wallet.Client.Safe.{
  Operation, connects, pays, mints, deploys, operate_all, IsSafeWallet, operate_all-IsSafe,
}

-- The first key that is asked for is given, and no other.
abbrev mint_once : List Act → Option String
mint_once [] = some "G-NEW"
mint_once (minted k ∷ log) = none
mint_once (_ ∷ log) = mint_once log

abbrev host : Host
host = record {
  has_credentials = λ log. true;
  now = λ log. "2026-07-16T15:00:00.000Z";
  now_ms = λ log. 1000000;
  create_wallet =
      λ log. some (record { key_id = "key"; contract_id = "CWALLET"; signed_tx = text "creation" });
  submit_wallet_creation = λ log. some "session";
  connect_wallet = λ log. some (record {
    looks_up = some "key";
    result = λ l. elim l [ found c ↦ some (c, "key") | _ ↦ none ];
  });
  lookup_contract_id = λ log. some (some ("CWALLET", "session"));
  mint = mint_once;
  revoke = λ log. true;
  sign = λ log. some none;
  transfer = λ log. some (with_xdr "transfer");
  submit_transaction = λ log. some "hash";
  resume = λ log. true;
  add_agent_key = λ log. some "added";
  remove_agent_key = λ log. some "removed";
  deploy_instance = λ log. some "CPOLICY";
  attach_policy = λ log. some "attach";
  record_deployment = λ log. true;
}

abbrev rotating : ConnectorOptions
rotating = record { network = testnet; rotates = true }

abbrev config : VellarWalletConfig
config = record {
  network = testnet;
  api_url = "https://api";
  agents = record { has_runtime = true; has_resume = true };
  attach = record { has_attach = true; has_resume = true };
  x402_signer = some "CWALLET";
}

abbrev any_address : String → Bool
any_address a = not (a == "")

abbrev session : OpenSession
session = session_for host rotating "CWALLET" (some "key") (some "session") create_vellar_wallet

abbrev open_wallet : Wallet
open_wallet = record create_vellar_wallet { opened = some session }

abbrev payment : PayInput
payment = record { to = "GPAYEE"; amount = pos 5; token = "CUSDC" }

no_second_key : (log : List Act) (k : String) → mint_once log ≡ some k → WasMinted k log → ⊥
no_second_key [] k e was = was
no_second_key (minted j ∷ log) k e was = cc
no_second_key (Act.kit_create u ∷ log) k e was = no_second_key log k e was
no_second_key (Act.submit_creation a b c ∷ log) k e was = no_second_key log k e was
no_second_key (Act.kit_connect ∷ log) k e was = no_second_key log k e was
no_second_key (Act.looked_up a ∷ log) k e was = no_second_key log k e was
no_second_key (Act.revoked a ∷ log) k e was = no_second_key log k e was
no_second_key (Act.debug a ∷ log) k e was = no_second_key log k e was
no_second_key (Act.kit_sign a ∷ log) k e was = no_second_key log k e was
no_second_key (Act.built a b c d ∷ log) k e was = no_second_key log k e was
no_second_key (Act.submitted a ∷ log) k e was = no_second_key log k e was
no_second_key (Act.resumed a ∷ log) k e was = no_second_key log k e was
no_second_key (Act.added_agent a ∷ log) k e was = no_second_key log k e was
no_second_key (Act.removed_agent a ∷ log) k e was = no_second_key log k e was
no_second_key (Act.instance_deployed a b ∷ log) k e was = no_second_key log k e was
no_second_key (Act.attached a ∷ log) k e was = no_second_key log k e was
no_second_key (Act.recorded a b c ∷ log) k e was = no_second_key log k e was

MintsFresh-host : MintsFresh host
MintsFresh-host = record { fresh_key = no_second_key }

IsRotating-start : IsRotating create_vellar_wallet
IsRotating-start = record {
  active_minted = λ k e. cc;
  active_live = λ k e was. was;
  revoked_minted = λ k was. was;
}

connect_all-IsRotating_example :
    IsRotating (connect_all host rotating (testnet ∷ testnet ∷ []) create_vellar_wallet)
connect_all-IsRotating_example =
    connect_all-IsRotating host rotating MintsFresh-host (testnet ∷ testnet ∷ [])
      create_vellar_wallet IsRotating-start

pay-PayEnds_example :
    PayEnds host any_address config "CWALLET" payment open_wallet
      (pay host any_address config payment open_wallet).0
      (pay host any_address config payment open_wallet).1
unfolding session_for
pay-PayEnds_example = pay-PayEnds host any_address config payment open_wallet session refl

pays_what_was_built : pay host any_address config payment open_wallet ≡ (
  ok "hash",
  record open_wallet {
    log =
        submitted "transfer"
        ∷ kit_sign (with_xdr "transfer")
        ∷ built "CUSDC" "CWALLET" "GPAYEE" (pos 5)
        ∷ [];
  },
)
unfolding pay require_session prepare_payment assert_payment confirm default_signed_to_xdr
    session_for ◌>>=◌
pays_what_was_built = refl

deployed : deploy_policy host config.attach "p" open_wallet ≡ (
  ok (record { contract_id = "CPOLICY"; attach_tx_hash = "attach" }),
  record open_wallet {
    log =
        recorded "p" "attach" "CPOLICY"
        ∷ attached "CPOLICY"
        ∷ resumed "key"
        ∷ instance_deployed "p" "CWALLET"
        ∷ [];
  },
)
unfolding deploy_policy require_session record_deployment resume_key session_for ◌>>=◌
deployed = refl

abbrev agent : MintAgentInput
agent = record {
  public_key = "GAAAAAAAAAAAAAAAAAAAAAAAAAAAAAAAAAAAAAAAAAAAAAAAAAAAAAAA";
  grants =
      record {
        token = "CAAAAAAAAAAAAAAAAAAAAAAAAAAAAAAAAAAAAAAAAAAAAAAAAAAAAAAA";
        policies = "CBBBBBBBBBBBBBBBBBBBBBBBBBBBBBBBBBBBBBBBBBBBBBBBBBBBBBBB" ∷ [];
      }
      ∷ [];
  expires_at = none;
  is_temporary = false;
}

agent_is_valid : validate_mint agent ≡ ok tt
unfolding validate_mint validate_grants validate_grant validate_policies is_public_key
    is_contract_id
agent_is_valid = refl

-- A payment that is submitted and an agent key that is added.
abbrev operations : List Operation
operations = connects ∷ pays payment ∷ mints agent ∷ deploys "p" ∷ []

operate_all-IsSafe_example :
    IsSafeWallet host any_address config
      (operate_all host any_address config operations create_vellar_wallet)
operate_all-IsSafe_example =
    operate_all-IsSafe host any_address config operations create_vellar_wallet tt
