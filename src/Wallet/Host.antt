-- ===== src/Wallet/Host.antt =====
-- What a wallet client of src/client.ts calls outside itself: the passkey kit, the backend, the token
-- contract client and the runtimes that its host wires in. Each answer is a function of all that the
-- client did before, newest first, and `none` is a call that throws; so a theorem for every host is one
-- for every behaviour of theirs, changes over time included.
use vellar_sdk.Prelude.{
  ℕ, ℤ, Bool, String, Option, none, some, List, ◌∷◌, Result, ok, err, ◌==◌, string_eq,
  if◌then◌else◌, inl, inr, Result-cases, ◌≡◌, refl,
}
use vellar_sdk.Session.Value.{Network, WalletSession, network_name}

-- What `kit.sign` gives, with `toXDR()` called.
pub data Signed : Type 0 where
  text : String → Signed
  with_xdr : String → Signed
  opaque : Signed

-- What the lookup of a wallet's contract comes to for the kit.
pub data Lookup : Type 0 where
  not_asked lookup_threw not_found : Lookup
  found : String → Lookup

-- The result of `kit.createWallet`.
pub record CreatedWallet : Type 0 where
  pub key_id : String
  pub contract_id : String
  pub signed_tx : Signed

-- How `kit.connectWallet` goes: the key that it looks up, if any, and what it makes of the answer.
pub record KitConnect : Type 0 where
  pub looks_up : Option String
  pub result : Lookup → Option (String × String)

pub record AgentPolicyGrant : Type 0 where
  pub token : String
  pub policies : List String

pub record AgentKey : Type 0 where
  pub public_key : String
  pub grants : List AgentPolicyGrant
  pub expiration_seconds : Option ℕ
  pub is_persistent : Bool

pub data Act : Type 0 where
  kit_create : (user : List ℕ) → Act
  submit_creation : (key_id contract_id : String) → Signed → Act
  kit_connect : Act
  looked_up : (key_id : String) → Act
  minted : (public_key : String) → Act
  revoked : (public_key : String) → Act
  debug : (event : String) → Act
  kit_sign : (tx : Signed) → Act
  built : (token from to : String) → (amount : ℤ) → Act
  submitted : (signed_xdr : String) → Act
  resumed : (key_id : String) → Act
  added_agent : AgentKey → Act
  removed_agent : (public_key : String) → Act
  instance_deployed : (policy account : String) → Act
  attached : (contract_id : String) → Act
  recorded : (policy hash contract_id : String) → Act

pub record Host : Type 0 where
  pub has_credentials : List Act → Bool
  pub now : List Act → String
  pub now_ms : List Act → ℕ
  pub create_wallet : List Act → Option CreatedWallet
  pub submit_wallet_creation : List Act → Option String
  pub connect_wallet : List Act → Option KitConnect
  pub lookup_contract_id : List Act → Option (Option (String × String))
  pub mint : List Act → Option String
  pub revoke : List Act → Bool
  pub sign : List Act → Option (Option Signed)
  pub transfer : List Act → Option Signed
  pub submit_transaction : List Act → Option String
  pub resume : List Act → Bool
  pub add_agent_key : List Act → Option String
  pub remove_agent_key : List Act → Option String
  pub deploy_instance : List Act → Option String
  pub attach_policy : List Act → Option String
  pub record_deployment : List Act → Bool

-- The errors, by class; `host_threw` is an error of the host that is passed on.
pub data WalletError : Type 0 where
  browser_required network_mismatch cannot_convert wallet_not_ready host_threw : WalletError
  invalid_recipient same_recipient invalid_amount : WalletError
  agents_not_configured bad_public_key no_grants bad_token unrestricted bad_policy : WalletError
  expires_in_past policies_not_configured not_deployable : WalletError
  x402_not_configured signer_mismatch : WalletError

-- The session that `sessionFor` makes, with its two optional fields.
pub record OpenSession : Type 0 where
  pub session : WalletSession
  pub key_id : Option String
  pub server_session_id : Option String

-- The variables of the closures, and what was done so far, newest first.
pub record Wallet : Type 0 where
  pub opened : Option OpenSession
  pub active_key : Option String
  pub log : List Act

abbrev pub Async : Type 0 → Type 0
Async A = Wallet → Result WalletError A × Wallet

infixl 5 ◌>>=◌ ◌>>◌
unfoldable pub ◌>>=◌ : {A B : Type 0} → Async A → (A → Async B) → Async B
◌>>=◌ m f w = let (r, w') = m w in elim r [ err e ↦ (err e, w') | ok a ↦ f a w' ]

abbrev pub ◌>>◌ : {A B : Type 0} → Async A → Async B → Async B
m >> n = m >>= λ _. n

abbrev pub lift : {A : Type 0} → Result WalletError A → Async A
lift r w = (r, w)

-- `if (!b) throw e;`
abbrev pub require : Bool → WalletError → Async (Unit {0})
require b e w = (if b then ok tt else err e, w)

abbrev pub log_act : Act → Wallet → Wallet
log_act a w = record w { log = a ∷ w.log }

-- A call that is logged and answered.
abbrev pub ask : {A : Type 0} → (List Act → Option A) → Act → Async A
ask answer a w = (elim (answer w.log) [ none ↦ err host_threw | some x ↦ ok x ], log_act a w)

abbrev pub same_network : Network → Network → Bool
same_network a b = network_name a == network_name b

-- A predicate on the state that each part of a chain keeps is kept by the chain.
abbrev pub Keeps : {A : Type 0} → (Wallet → Type 0) → Async A → Type 0
Keeps P m = (w : Wallet) → P w → P (m w).1

pub >>=-Keeps :
    {A B : Type 0} (P : Wallet → Type 0) (m : Async A) (f : A → Async B)
    → Keeps P m
    → ((a : A) → Keeps P (f a))
    → Keeps P (m >>= f)
unfolding ◌>>=◌
>>=-Keeps P m f first next w h = elim (Result-cases (m w).0) [
  | inl (e, failed) ↦ rw (failed, ◌>>=◌) (first w h)
  | inr (a, done) ↦ rw (done, ◌>>=◌) (next a (m w).1 (first w h))
]

-- The same after a check, where the check has passed.
pub lift-Keeps :
    {A B : Type 0} (P : Wallet → Type 0) (r : Result WalletError A) (f : A → Async B)
    → ((a : A) → r ≡ ok a → Keeps P (f a))
    → Keeps P (lift r >>= f)
unfolding ◌>>=◌
lift-Keeps P (err e) f next w h = h
lift-Keeps P (ok a) f next w h = next a refl w h
