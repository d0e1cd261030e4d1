-- ===== src/Wallet/Agents/Limited.antt =====
-- src/agents-facade.ts: no agent key is added without limits.
use vellar_sdk.Prelude.{
  ℕ, ◌/◌, ◌<◌, true, false, String, Option, none, some, List, [], ◌∷◌, ok, is_empty, All, nat_eq,
  string_eq, ◌≡◌, refl, ◌↔◌, arith,
}
use vellar_sdk.Wallet.Host.{AgentPolicyGrant}
use vellar_sdk.Wallet.Agents.{
  ExpiresAt, MintAgentInput, is_public_key, is_contract_id, validate_policies, validate_grant,
  validate_grants, validate_mint, to_expiration_seconds,
}

-- A grant for one token contract, with at least one policy contract that must co-sign.
abbrev pub IsGrant : AgentPolicyGrant → Type 0
IsGrant g =
    (is_contract_id g.token ≡ true)
    × (is_empty g.policies ≡ false)
    × All (λ p. is_contract_id p ≡ true) g.policies

-- A public key with at least one grant, each of them limited.
abbrev pub IsLimited : String → List AgentPolicyGrant → Type 0
IsLimited public_key grants =
    (is_public_key public_key ≡ true) × (is_empty grants ≡ false) × All IsGrant grants

validate_policies_iff :
    (ps : List String) → (validate_policies ps ≡ ok tt) ↔ All (λ p. is_contract_id p ≡ true) ps
unfolding validate_policies
validate_policies_iff [] = (λ h. tt, λ h. refl)
validate_policies_iff (p ∷ ps) = ground (arith, validate_policies_iff ps)

validate_grant_iff : (g : AgentPolicyGrant) → (validate_grant g ≡ ok tt) ↔ IsGrant g
unfolding validate_grant
validate_grant_iff g = ground (arith, validate_policies_iff g.policies)

validate_grants_iff : (gs : List AgentPolicyGrant) → (validate_grants gs ≡ ok tt) ↔ All IsGrant gs
unfolding validate_grants
validate_grants_iff [] = (λ h. tt, λ h. refl)
validate_grants_iff (g ∷ gs) = ground (arith, validate_grant_iff g, validate_grants_iff gs)

pub validate_mint_iff :
    (input : MintAgentInput)
    → (validate_mint input ≡ ok tt) ↔ IsLimited input.public_key input.grants
unfolding validate_mint
validate_mint_iff input = ground (arith, validate_grants_iff input.grants)

abbrev pub IsAhead : ℕ → Option ℕ → Type 0
IsAhead now_ms none = Unit
IsAhead now_ms (some s) = now_ms / 1000 < s

to_expiration_seconds-IsAhead :
    (now_ms : ℕ) (at : Option ExpiresAt) (e : Option ℕ)
    → to_expiration_seconds now_ms at ≡ ok e
    → IsAhead now_ms e
unfolding to_expiration_seconds
to_expiration_seconds-IsAhead now_ms none e h = ground arith
to_expiration_seconds-IsAhead now_ms (some at) e h = ground arith
