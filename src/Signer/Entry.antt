-- ===== src/Signer/Entry.antt =====
-- The parts of an `xdr.SorobanAuthorizationEntry` that src/x402-auth-entry.ts and
-- src/x402-signer.ts read and write. An address is its text (`Address.toString()`); an argument is a
-- value of a type `V` that the stellar-sdk decodes.
use vellar_sdk.Prelude.{ℕ, String, List}

-- `function()`: a contract call, or the name of another switch.
pub data AuthorizedFunction (V : Type 0) : Type 0 where
  contract_fn : (contract_address function_name : String) → (args : List V) → AuthorizedFunction V
  other_fn : (switch_name : String) → AuthorizedFunction V

mutual
  pub data Invocation (V : Type 0) : Type 0 where
    invocation : AuthorizedFunction V → Invocations V → Invocation V

  pub data Invocations (V : Type 0) : Type 0 where
    no_more : Invocations V
    also : Invocation V → Invocations V → Invocations V

pub data SignerKey : Type 0 where
  ed25519 secp256r1 policy : String → SignerKey

pub data Signature : Type 0 where
  ed25519_signature : String → Signature
  secp256r1_signature : (authenticator_data client_data_json signature : String) → Signature
  policy_signature : Signature

-- Address credentials, or the name of another switch.
pub data Credentials : Type 0 where
  address_credentials :
      (address : String)
      → (signature_expiration_ledger : ℕ) → (signature : List (SignerKey × Signature)) → Credentials
  other_credentials : (switch_name : String) → Credentials

pub record Entry (V : Type 0) : Type 0 where
  pub credentials : Credentials
  pub root_invocation : Invocation V
