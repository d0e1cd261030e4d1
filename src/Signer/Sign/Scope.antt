-- ===== src/Signer/Sign/Scope.antt =====
-- src/x402-signer.ts: the capability rules of a signer, and what it signs.
use vellar_sdk.Prelude.{ℕ, String, some, List, [], ◌≡◌, ok, err}
use vellar_sdk.Signer.Entry.{Entry}
use vellar_sdk.Signer.Capability.{CapabilityRequest, CapabilityError, assert_capability}
use vellar_sdk.Signer.Sign.{
  SignerActionEvent, SignerConfig, capability_request_for, Signing, sign_entry, sign_auth_entry,
}

-- The rules of a signer do not restrict what it signs: for an entry whose invocation its rules deny,
-- it returns what the same signer without rules returns, a signature where that one signs.
pub denied_but_signed :
    {V : Type 0} (s : Signing V) (config : SignerConfig) (xdr network : String) (expiration : ℕ)
    (entry : Entry V) (request : CapabilityRequest) (e : CapabilityError) (signed : String)
    (log : List SignerActionEvent)
    → s.from_xdr xdr ≡ some entry
    → capability_request_for entry ≡ some request
    → assert_capability config.capabilities request ≡ err e
    → sign_auth_entry s (record config { capabilities = [] }) xdr network expiration
      ≡ (ok signed, log)
    → sign_auth_entry s config xdr network expiration ≡ (ok signed, log)
unfolding sign_auth_entry sign_entry
denied_but_signed s config xdr network expiration entry request e signed log parsed asked denied h =
    h
