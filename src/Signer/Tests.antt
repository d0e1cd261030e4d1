-- ===== src/Signer/Tests.antt =====
-- src/x402-signer.ts and the modules it uses, on a transfer of 100 units.
use vellar_sdk.Prelude.{
  ℤ, pos, String, false, Option, none, some, List, [], ◌∷◌, ok, err, ◌≡◌, refl, ◌↔◌, codes, ◌==◌,
  string_eq, if◌then◌else◌,
}
use vellar_sdk.Signer.Entry.{
  contract_fn, invocation, no_more, also, ed25519, ed25519_signature, address_credentials, Entry,
}
use vellar_sdk.Signer.AuthEntry.{
  ExpectedInvocation, sub_invocations, assert_auth_entry_invocation, IsIntended,
  assert_auth_entry_invocation-ok_iff,
}
use vellar_sdk.Signer.Capability.{
  CapabilityRule, CapabilityRequest, capability_denied, evaluate_capability, assert_capability,
}
use vellar_sdk.Signer.Sign.{
  SignerConfig, authorize, Signing, Keyed, assert_entry_address, sign_entry, sign_auth_entry,
  sort_policies,
}
use vellar_sdk.Signer.Sign.Audit.{Covers, sign_auth_entry-Covers}

-- An argument: an address or an integer.
data Value : Type 0 where
  address_value : String → Value
  int_value : ℤ → Value

abbrev address_of : Value → Option String
address_of (address_value a) = some a
address_of (int_value n) = none

abbrev number_of : Value → Option ℤ
number_of (address_value a) = none
number_of (int_value n) = some n

abbrev wallet : String
wallet = "CAAAAAAAAAAAAAAAAAAAAAAAAAAAAAAAAAAAAAAAAAAAAAAAAAAAAAAA"

abbrev token : String
token = "CBBBBBBBBBBBBBBBBBBBBBBBBBBBBBBBBBBBBBBBBBBBBBBBBBBBBBBB"

abbrev transfer : Entry Value
transfer = record {
  credentials = address_credentials wallet 0 [];
  root_invocation =
      invocation
        (contract_fn token "transfer"
          (address_value wallet ∷ address_value "GPAYEE" ∷ int_value (pos 100) ∷ []))
        no_more;
}

abbrev expected : ExpectedInvocation
expected = record {
  contract = token;
  function_name = "transfer";
  from = wallet;
  to = "GPAYEE";
  amount = pos 100;
}

transfer_is_intended : assert_auth_entry_invocation address_of number_of transfer expected ≡ ok tt
unfolding assert_auth_entry_invocation
transfer_is_intended = refl

abbrev approve_call : Entry Value
approve_call = record transfer {
  root_invocation =
      invocation
        (contract_fn token "transfer"
          (address_value wallet ∷ address_value "GPAYEE" ∷ int_value (pos 100) ∷ []))
        (also (invocation (contract_fn token "approve" []) no_more) no_more);
}

hidden_call :
    assert_auth_entry_invocation address_of number_of approve_call expected ≡ err sub_invocations
unfolding assert_auth_entry_invocation
hidden_call = refl

assert_auth_entry_invocation-ok_iff_example :
    (assert_auth_entry_invocation address_of number_of transfer expected ≡ ok tt)
    ↔ IsIntended address_of number_of transfer expected
assert_auth_entry_invocation-ok_iff_example =
    assert_auth_entry_invocation-ok_iff address_of number_of transfer expected

abbrev rule : CapabilityRule
rule = record { resource_type = "*"; action = "approve" }

abbrev request : CapabilityRequest
request = record { resource_type = token; action = "transfer" }

denied_by_rules :
    assert_capability (rule ∷ []) request ≡ err (capability_denied request (rule ∷ []))
unfolding assert_capability evaluate_capability
denied_by_rules = refl

abbrev config : SignerConfig
config = record {
  address = wallet;
  policies = "CPOLICYB" ∷ "CPOLICYA" ∷ [];
  capabilities = rule ∷ [];
}

abbrev signing : Signing Value
signing = record {
  from_xdr = λ xdr. if xdr == "transfer" then some transfer else none;
  to_xdr = λ entry. "signed";
  payload_hash = λ entry expiration network. "hash";
  produce = λ payload. some (ed25519 "key", ed25519_signature "signature");
  address_bytes = λ address. some (codes address);
  hook_rejects = λ event. false;
}

abbrev unscoped : SignerConfig
unscoped = record config { capabilities = [] }

signs_unscoped :
    sign_auth_entry signing unscoped "transfer" "testnet" 7
    ≡ (ok "signed", authorize wallet "testnet" ∷ [])
unfolding sign_auth_entry sign_entry assert_entry_address sort_policies
signs_unscoped = refl

result_is_signed : (sign_auth_entry signing config "transfer" "testnet" 7).0 ≡ ok "signed"
unfolding sign_auth_entry sign_entry assert_entry_address sort_policies
result_is_signed = refl

sign_auth_entry-Covers_example : Covers signing config "transfer" "testnet" 7 "signed"
sign_auth_entry-Covers_example =
    sign_auth_entry-Covers signing config "transfer" "testnet" 7 "signed" result_is_signed

abbrev keyed : List Keyed
keyed = (codes "CPOLICYB", "CPOLICYB") ∷ (codes "CPOLICYA", "CPOLICYA") ∷ []
