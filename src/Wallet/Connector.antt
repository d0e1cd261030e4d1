-- ===== src/Wallet/Connector.antt =====
-- src/passkeykit-connector.ts: the connector that is backed by a passkey kit.
pub mod Rotation
pub mod Create
use vellar_sdk.Prelude.{
  ℕ, Bool, true, false, not, String, Option, none, some, List, [], ◌∷◌, Result, ok, err, codes,
  is_empty, ◌==◌, string_eq, if◌then◌else◌,
}
use vellar_sdk.Session.Value.{Network, WalletSession}
use vellar_sdk.Tokens.{trim}
use vellar_sdk.Wallet.Host.{
  Signed, text, with_xdr, opaque, Lookup, not_asked, lookup_threw, not_found, found, CreatedWallet,
  KitConnect, Act, kit_create, submit_creation, kit_connect, looked_up, minted, revoked, debug,
  kit_sign, Host, WalletError, browser_required, network_mismatch, cannot_convert, host_threw,
  OpenSession, Wallet, Async, ◌>>=◌, ◌>>◌, lift, require, log_act, ask, same_network,
}

unfoldable pub default_signed_to_xdr : Signed → Result WalletError String
default_signed_to_xdr (text s) = ok s
default_signed_to_xdr (with_xdr s) = ok s
default_signed_to_xdr opaque = err cannot_convert

-- The options that decide what the connector does.
pub record ConnectorOptions : Type 0 where
  pub network : Network
  pub rotates : Bool

-- `input.username?.trim() || "Vellar user"`.
unfoldable pub user_of : Option (List ℕ) → List ℕ
user_of none = codes "Vellar user"
user_of (some name) = if is_empty (trim name) then codes "Vellar user" else trim name

module _ (host : Host) (options : ConnectorOptions) where
  unfoldable pub assert_browser : Async (Unit {0})
  assert_browser w = require (host.has_credentials w.log) browser_required w

  unfoldable pub assert_network : Network → Async (Unit {0})
  assert_network requested = require (same_network requested options.network) network_mismatch

  unfoldable pub session_for : String → Option String → Option String → Wallet → OpenSession
  session_for contract_id key_id server_session_id w = record {
    session = record {
      account_id = contract_id;
      network = options.network;
      connected = true;
      created_at = host.now w.log;
      last_active_at = host.now w.log;
    };
    key_id = key_id;
    server_session_id = server_session_id;
  }

  -- The second half of `rotateSessionKey`: the key that was active before, if any, is revoked.
  unfoldable pub revoke_previous : Option String → Wallet → Wallet
  revoke_previous none w = w
  revoke_previous (some k) w =
      if k == ""
      then w
      else log_act
          (debug (if host.revoke w.log then "session-key-revoked" else "session-key-revoke-failed"))
          (log_act (revoked k) w)

  -- `rotateSessionKey`, which never throws. A key is minted before the old one is revoked.
  unfoldable pub rotate_session_key : Wallet → Wallet
  rotate_session_key w = elim (host.mint w.log) [
    | none ↦ log_act (debug "session-key-rotation-mint-failed") w
    | some k ↦
        revoke_previous w.active_key
          (record w { active_key = some k; log = debug "session-key-rotated" ∷ minted k ∷ w.log })
  ]

  unfoldable pub create_wallet : Option (List ℕ) → Network → Async OpenSession
  create_wallet username requested = do
    assert_browser
    assert_network requested
    created ← ask host.create_wallet (kit_create (user_of username))
    session_id ←
        ask host.submit_wallet_creation
          (submit_creation created.key_id created.contract_id created.signed_tx)
    λ w. (ok (session_for created.contract_id (some created.key_id) (some session_id) w), w)

  -- The callback `getContractId`: what it gives the kit, and the session id that it captures.
  unfoldable pub get_contract_id : Option String → Wallet → (Lookup × Option String) × Wallet
  get_contract_id none w = ((not_asked, none), w)
  get_contract_id (some k) w = (
    elim (host.lookup_contract_id w.log) [
      | none ↦ (lookup_threw, none)
      | some answer ↦ elim answer [
        | none ↦ (not_found, none)
        | some (contract_id, session_id) ↦ (found contract_id, some session_id)
      ]
    ],
    log_act (looked_up k) w,
  )

  -- `kit.connectWallet`, with the lookup that it makes.
  unfoldable pub kit_connect_wallet : KitConnect → Async ((String × String) × Option String)
  kit_connect_wallet c w =
      let ((answer, server_session_id), w') = get_contract_id c.looks_up w in
      (elim (c.result answer) [ none ↦ err host_threw | some r ↦ ok (r, server_session_id) ], w')

  unfoldable pub rotated : Wallet → Wallet
  rotated w = if options.rotates then rotate_session_key w else w

  unfoldable pub connect_wallet : Network → Async OpenSession
  connect_wallet requested = do
    assert_browser
    assert_network requested
    c ← ask host.connect_wallet kit_connect
    connected ← kit_connect_wallet c
    λ w. (ok (session_for connected.0.0 (some connected.0.1) connected.1 (rotated w)), rotated w)

  unfoldable pub sign_transaction : String → Network → Async String
  sign_transaction xdr requested = do
    assert_network requested
    signed ← ask host.sign (kit_sign (text xdr))
    lift (elim signed [ none ↦ err cannot_convert | some s ↦ default_signed_to_xdr s ])
