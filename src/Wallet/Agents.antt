-- ===== src/Wallet/Agents.antt =====
-- src/agents-facade.ts: minting and revoking agent keys. The regular expressions are tests on the
-- codes of a text. An expiration is a date, in milliseconds, or seconds.
pub mod Limited
use vellar_sdk.Prelude.{
  ℕ, suc, ◌+◌, ◌*◌, ◌/◌, ◌≤◌, Bool, true, false, not, ◌&&◌, ◌||◌, String, Option, none, some, List,
  [], ◌∷◌, Result, ok, err, codes, length, every, is_empty, ltb, leb, ◌==◌, nat_eq, string_eq,
  if◌then◌else◌,
}
use vellar_sdk.Wallet.Host.{
  AgentPolicyGrant, AgentKey, added_agent, removed_agent, resumed, Host, WalletError, host_threw,
  wallet_not_ready, agents_not_configured, bad_public_key, no_grants, bad_token, unrestricted,
  bad_policy, expires_in_past, OpenSession, Wallet, Async, ◌>>=◌, ◌>>◌, lift, require, ask, log_act,
}

pub data ExpiresAt : Type 0 where
  date : (ms : ℕ) → ExpiresAt
  seconds : (s : ℕ) → ExpiresAt

pub record MintAgentInput : Type 0 where
  pub public_key : String
  pub grants : List AgentPolicyGrant
  pub expires_at : Option ExpiresAt
  pub is_temporary : Bool

pub record MintAgentResult : Type 0 where
  pub hash : String
  pub public_key : String
  pub expiration_seconds : Option ℕ

-- `[A-Z2-7]`.
abbrev pub is_base32 : ℕ → Bool
is_base32 c = (leb b'A' c && leb c b'Z') || (leb b'2' c && leb c b'7')

-- `/^G[A-Z2-7]{55}$/`, `/^C[A-Z2-7]{55}$/`.
abbrev pub is_key_text : ℕ → List ℕ → Bool
is_key_text first [] = false
is_key_text first (c ∷ cs) = c == first && (length cs == 55 && every is_base32 cs)

unfoldable pub is_public_key : String → Bool
is_public_key key = is_key_text b'G' (codes key)

unfoldable pub is_contract_id : String → Bool
is_contract_id id = is_key_text b'C' (codes id)

-- The loop over a grant's policies.
unfoldable pub validate_policies : List String → Result WalletError (Unit {0})
validate_policies [] = ok tt
validate_policies (p ∷ ps) = if not (is_contract_id p) then err bad_policy else validate_policies ps

unfoldable pub validate_grant : AgentPolicyGrant → Result WalletError (Unit {0})
validate_grant g =
    if not (is_contract_id g.token)
    then err bad_token
    else if is_empty g.policies
    then err unrestricted
    else validate_policies g.policies

-- The loop over the grants.
unfoldable pub validate_grants : List AgentPolicyGrant → Result WalletError (Unit {0})
validate_grants [] = ok tt
validate_grants (g ∷ gs) = elim (validate_grant g) [ err e ↦ err e | ok _ ↦ validate_grants gs ]

unfoldable pub validate_mint : MintAgentInput → Result WalletError (Unit {0})
validate_mint input =
    if not (is_public_key input.public_key)
    then err bad_public_key
    else if is_empty input.grants
    then err no_grants
    else validate_grants input.grants

abbrev pub seconds_of : ExpiresAt → ℕ
seconds_of (date ms) = ms / 1000
seconds_of (seconds s) = s

-- `toExpirationSeconds`, where the clock reads `now_ms`.
unfoldable pub to_expiration_seconds : ℕ → Option ExpiresAt → Result WalletError (Option ℕ)
to_expiration_seconds now_ms none = ok none
to_expiration_seconds now_ms (some at) =
    if leb (seconds_of at) (now_ms / 1000) then err expires_in_past else ok (some (seconds_of at))

-- Which of the optional parts of the runtime are wired in.
pub record AgentsConfig : Type 0 where
  pub has_runtime : Bool
  pub has_resume : Bool

unfoldable pub require_session : Async OpenSession
require_session w = (elim w.opened [ none ↦ err wallet_not_ready | some s ↦ ok s ], w)

-- `session.keyId && runtime.resume`.
unfoldable pub resume_key : Host → Bool → Option String → Async (Unit {0})
resume_key host has_resume none w = (ok tt, w)
resume_key host has_resume (some k) w =
    if k == ""
    then (ok tt, w)
    else if has_resume
    then (if host.resume w.log then ok tt else err host_threw, log_act (resumed k) w)
    else (ok tt, w)

module _ (host : Host) (config : AgentsConfig) where
  unfoldable pub mint_agent : MintAgentInput → Async MintAgentResult
  mint_agent input = do
    require config.has_runtime agents_not_configured
    session ← require_session
    lift (validate_mint input)
    expiration ← λ w. (to_expiration_seconds (host.now_ms w.log) input.expires_at, w)
    resume_key host config.has_resume session.key_id
    hash ← ask host.add_agent_key (
        added_agent (record {
          public_key = input.public_key;
          grants = input.grants;
          expiration_seconds = expiration;
          is_persistent = not input.is_temporary;
        }))
    lift (
        ok (record { hash = hash; public_key = input.public_key; expiration_seconds = expiration }))

  unfoldable pub revoke_agent : String → Async String
  revoke_agent public_key = do
    require config.has_runtime agents_not_configured
    session ← require_session
    require (is_public_key public_key) bad_public_key
    resume_key host config.has_resume session.key_id
    ask host.remove_agent_key (removed_agent public_key)
