-- ===== src/Session/Value.antt =====
-- src/session.ts, `isWalletSession`, and the session that it accepts (src/types.ts). A stored value is
-- anything; of an object, the fields that are tested are kept, and not the optional ones.
use vellar_sdk.Prelude.{
  String, Bool, true, false, Option, none, some, ◌==◌, string_eq, if◌then◌else◌, ◌≡◌, refl, ◌↔◌,
  ◌≢◌, arith, eq_iff,
}

pub data Field : Type 0 where
  text : String → Field
  flag : Bool → Field
  other : Field

pub record RawSession : Type 0 where
  pub account_id : Field
  pub network : Field
  pub connected : Field
  pub auth_method : Field
  pub created_at : Field
  pub last_active_at : Field

pub data Raw : Type 0 where
  non_object : Raw
  object : RawSession → Raw

pub data Network : Type 0 where
  testnet mainnet : Network

-- `authMethod` is always "passkey".
pub record WalletSession : Type 0 where
  pub account_id : String
  pub network : Network
  pub connected : Bool
  pub created_at : String
  pub last_active_at : String

abbrev pub network_name : Network → String
network_name testnet = "testnet"
network_name mainnet = "mainnet"

abbrev pub to_raw : WalletSession → Raw
to_raw s = object (record {
  account_id = text s.account_id;
  network = text (network_name s.network);
  connected = flag s.connected;
  auth_method = text "passkey";
  created_at = text s.created_at;
  last_active_at = text s.last_active_at;
})

abbrev pub read_network : Field → Option Network
read_network (text n) =
    if n == "testnet" then some testnet else if n == "mainnet" then some mainnet else none
read_network f = none

abbrev pub is_passkey : Field → Bool
is_passkey (text m) = m == "passkey"
is_passkey f = false

-- The fields once their types are known.
abbrev read_fields : Field → Option Network → Field → Bool → Field → Field → Option WalletSession
read_fields (text id) (some network) (flag connected) true (text created) (text active) =
    if id == ""
    then none
    else some (record {
      account_id = id;
      network = network;
      connected = connected;
      created_at = created;
      last_active_at = active;
    })
read_fields _ _ _ _ _ _ = none

-- The value as a session, where `isWalletSession` holds of it.
unfoldable pub read_session : Raw → Option WalletSession
read_session non_object = none
read_session (object v) =
    read_fields v.account_id (read_network v.network) v.connected (is_passkey v.auth_method)
      v.created_at v.last_active_at

read_network-name : (n : Network) → read_network (text (network_name n)) ≡ some n
read_network-name testnet = refl
read_network-name mainnet = refl

read_session-eq :
    (s : WalletSession) → read_session (to_raw s) ≡ (if s.account_id == "" then none else some s)
unfolding read_session
read_session-eq s = rw (read_network-name s.network)

fields_named :
    (id : Field) (n : Option Network) (c : Field) (b : Bool) (created active : Field)
    (x : WalletSession)
    → read_fields id n c b created active ≡ some x
    → x.account_id ≢ ""
fields_named (text id) (some n) (flag c) true (text created) (text active) x h =
    ground (arith, eq_iff id "")
fields_named _ _ _ _ _ _ x h = ground arith

-- A session that is saved is read back exactly when its account id is not empty.
pub read_session-to_raw_iff :
    (s : WalletSession) → (read_session (to_raw s) ≡ some s) ↔ (s.account_id ≢ "")
read_session-to_raw_iff s = ground (arith, read_session-eq s, eq_iff s.account_id "")

pub read_session-named :
    (raw : Raw) (x : WalletSession) → read_session raw ≡ some x → x.account_id ≢ ""
unfolding read_session
read_session-named non_object x h = cc
read_session-named (object v) x h =
    fields_named v.account_id (read_network v.network) v.connected (is_passkey v.auth_method)
      v.created_at v.last_active_at x h
