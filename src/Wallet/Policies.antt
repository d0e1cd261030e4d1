-- ===== src/Wallet/Policies.antt =====
-- src/policy-facade.ts: attaching a policy. The calls of its HTTP client are answers of the host.
use vellar_sdk.Prelude.{
  Bool, String, Option, none, some, ok, if◌then◌else◌, ◌≡◌, inl, inr, arith, List, [], ◌∷◌, ◌++◌,
  ◌==◌, string_eq, Option-cases,
}
use vellar_sdk.Wallet.Host.{
  Act, instance_deployed, attached, recorded, resumed, Host, not_deployable, OpenSession, Wallet,
  Async, ◌>>=◌, ◌>>◌, lift, require, ask,
}
use vellar_sdk.Wallet.Agents.{require_session, resume_key}

-- Whether the attach runtime is wired in, and whether it can resume a passkey.
pub record AttachConfig : Type 0 where
  pub has_attach : Bool
  pub has_resume : Bool

-- The contract that was attached, and the transaction that attached it.
pub record DeployPolicyResult : Type 0 where
  pub contract_id : String
  pub attach_tx_hash : String

module _ (host : Host) (config : AttachConfig) where
  unfoldable pub record_deployment : String → String → String → Async (Unit {0})
  record_deployment policy hash contract_id =
      ask (λ log. if host.record_deployment log then some tt else none)
        (recorded policy hash contract_id)

  unfoldable pub deploy_policy : String → Async DeployPolicyResult
  deploy_policy policy = do
    session ← require_session
    require config.has_attach not_deployable
    contract_id ← ask host.deploy_instance (instance_deployed policy session.session.account_id)
    resume_key host config.has_resume session.key_id
    hash ← ask host.attach_policy (attached contract_id)
    record_deployment policy hash contract_id
    lift (ok (record { contract_id = contract_id; attach_tx_hash = hash }))

  -- The log of a deployment that was completed, with or without the resumption of a passkey.
  abbrev pub deployment_log : String → String → String → String → List Act → List Act → List Act
  deployment_log policy account contract_id hash resumption log =
      recorded policy hash contract_id ∷ attached contract_id ∷ resumption
      ++ instance_deployed policy account ∷ log

  abbrev pub resumption_of : Option String → List Act
  resumption_of none = []
  resumption_of (some k) = if k == "" then [] else if config.has_resume then resumed k ∷ [] else []

  -- A deployment that succeeds did its steps in this order and no others: the instance was deployed for
  -- the connected wallet's account, a passkey resumed where there is one and the runtime can, the
  -- contract that the deployment gave attached, and its attachment recorded with the transaction that
  -- the attachment gave.
  pub deploy_policy-log :
      (policy : String) (w w' : Wallet) (r : DeployPolicyResult)
      → deploy_policy policy w ≡ (ok r, w')
      → (s : OpenSession) × (w.opened ≡ some s)
        × (host.deploy_instance w.log ≡ some r.contract_id)
        × (host.attach_policy
              (resumption_of s.key_id ++ instance_deployed policy s.session.account_id ∷ w.log)
            ≡ some r.attach_tx_hash)
        × (w' ≡ record w {
          log =
              deployment_log policy s.session.account_id r.contract_id r.attach_tx_hash
                (resumption_of s.key_id)
                w.log;
        })
  unfolding deploy_policy require_session record_deployment resume_key ◌>>=◌
  deploy_policy-log policy w w' r h = elim (Option-cases w.opened) [
    | inl closed ↦ absurd (ground arith)
    | inr (s, e) ↦ (s, e, ground arith, ground arith, ground arith)
  ]
