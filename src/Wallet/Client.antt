-- ===== src/Wallet/Client.antt =====
-- src/client.ts: `createVellarWallet`. The backend of the host is the one behind the circuit breaker.
pub mod Pays
pub mod Safe
use vellar_sdk.Prelude.{
  ℕ, ℤ, Bool, true, false, not, String, Option, none, some, List, [], ◌∷◌, Result, ok, err, ◌==◌,
  string_eq, if◌then◌else◌,
}
use vellar_sdk.Session.Value.{Network}
use vellar_sdk.Wallet.Host.{
  Host, WalletError, wallet_not_ready, policies_not_configured, x402_not_configured,
  signer_mismatch, OpenSession, Wallet, Async, ◌>>=◌, ◌>>◌, lift, require,
}
use vellar_sdk.Wallet.Connector.{ConnectorOptions, create_wallet, connect_wallet}
use vellar_sdk.Wallet.Payments.{PaymentInput, PreparedPayment, prepare_payment, confirm}
use vellar_sdk.Wallet.Agents.{
  AgentsConfig, MintAgentInput, MintAgentResult, mint_agent, require_session, revoke_agent,
}
use vellar_sdk.Wallet.Policies.{AttachConfig, DeployPolicyResult, deploy_policy}

-- The connector of the client never rotates: its options name no rotation runtime.
pub record VellarWalletConfig : Type 0 where
  pub network : Network
  pub api_url : String
  pub agents : AgentsConfig
  pub attach : AttachConfig
  pub x402_signer : Option String

pub record PayInput : Type 0 where
  pub to : String
  pub amount : ℤ
  pub token : String

-- The client before `create` or `connect`.
abbrev pub create_vellar_wallet : Wallet
create_vellar_wallet = record { opened = none; active_key = none; log = [] }

abbrev pub store_session : OpenSession → Async OpenSession
store_session s w = (ok s, record w { opened = some s })

-- `resolveSigner`: the address of the configured signer, which must be the connected wallet's.
abbrev pub is_other : String → Option OpenSession → Bool
is_other address none = false
is_other address (some s) = not (address == s.session.account_id)

module _ (host : Host) (is_valid_address : String → Bool) (config : VellarWalletConfig) where
  abbrev pub connector_options : ConnectorOptions
  connector_options = record { network = config.network; rotates = false }

  unfoldable pub create : Option (List ℕ) → Async OpenSession
  create username = do
    s ← create_wallet host connector_options username config.network
    store_session s

  unfoldable pub connect : Async OpenSession
  connect = do s ← connect_wallet host connector_options config.network; store_session s

  unfoldable pub pay : PayInput → Async String
  pay input = do
    session ← require_session
    prepared ← prepare_payment host is_valid_address (record {
      from = session.session.account_id;
      to = input.to;
      token = input.token;
      amount = input.amount;
    })
    confirm host is_valid_address prepared

  unfoldable pub resolve_signer : Async String
  resolve_signer w = elim config.x402_signer [
    | none ↦ (err x402_not_configured, w)
    | some address ↦ (if is_other address w.opened then err signer_mismatch else ok address, w)
  ]

  unfoldable pub mint : MintAgentInput → Async MintAgentResult
  mint input = mint_agent host config.agents input

  unfoldable pub revoke : String → Async String
  revoke public_key = revoke_agent host config.agents public_key

  -- The getter `policies`, and its `deploy`.
  unfoldable pub deploy : String → Async DeployPolicyResult
  deploy policy = do
    require (not (config.api_url == "")) policies_not_configured
    deploy_policy host config.attach policy
