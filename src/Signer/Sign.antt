-- ===== src/Signer/Sign.antt =====
-- src/x402-signer.ts: `createSessionKeySigner` and `createPasskeyX402Signer`.
-- Parsing, hashing and printing an entry, the key pair or the WebAuthn ceremony, and whether the
-- audit hook rejects an event are parameters. The part of `signAuthEntry` that stands after the
-- `try` statement is not reached, since that statement returns or throws on every path.
pub mod Audit
pub mod Policies
pub mod Scope
use vellar_sdk.Prelude.{
  ℕ, ℤ, String, Bool, true, false, not, ◌&&◌, Option, none, some, List, [], ◌∷◌, Result, ok, err,
  ◌>>=◌, ◌>>◌, throw_if, ltb, codes, length, map, ◌==◌, nat_eq, string_eq, if◌then◌else◌,
}
use vellar_sdk.Signer.Entry.{
  Entry, Credentials, address_credentials, other_credentials, SignerKey, policy, Signature,
  policy_signature, invocation, contract_fn, other_fn,
}
use vellar_sdk.Signer.Capability.{
  CapabilityRule, CapabilityRequest, CapabilityError, assert_valid_capability_rules,
}

pub data SignError : Type 0 where
  signer_address_no_contract policy_no_contract : String → SignError
  bad_rules : CapabilityError → SignError
  malformed_entry ceremony_failed hook_failed : SignError
  malformed_policy : String → SignError
  wrong_credentials : (switch_name : String) → SignError
  address_mismatch : (entry_address expected : String) → SignError

-- "authorize"/"success" and "deny"/"error", with the thrown value.
pub data SignerActionEvent : Type 0 where
  authorize : (actor network_passphrase : String) → SignerActionEvent
  deny : (actor network_passphrase : String) → SignError → SignerActionEvent

pub record SignerConfig : Type 0 where
  pub address : String
  pub policies : List String
  pub capabilities : List CapabilityRule

-- `address.startsWith("C") && address.length === 56`.
abbrev pub starts_with_c : List ℕ → Bool
starts_with_c [] = false
starts_with_c (c ∷ cs) = c == b'C'

abbrev pub is_contract_address : String → Bool
is_contract_address address = starts_with_c (codes address) && length (codes address) == 56

abbrev assert_policies : List String → Result SignError (Unit {0})
assert_policies [] = ok tt
assert_policies (p ∷ ps) = do
  throw_if (not (is_contract_address p)) (policy_no_contract p)
  assert_policies ps

abbrev assert_rules : List CapabilityRule → Result SignError (Unit {0})
assert_rules rules = elim (assert_valid_capability_rules rules) [
  | err e ↦ err (bad_rules e)
  | ok u ↦ ok u
]

-- What the constructors check; only the session-key signer checks its policies.
unfoldable pub create_session_key_signer : SignerConfig → Result SignError SignerConfig
create_session_key_signer config = do
  throw_if (not (is_contract_address config.address)) (signer_address_no_contract config.address)
  assert_policies config.policies
  assert_rules config.capabilities
  ok config

unfoldable pub create_passkey_signer : SignerConfig → Result SignError SignerConfig
create_passkey_signer config = do
  throw_if (not (is_contract_address config.address)) (signer_address_no_contract config.address)
  assert_rules config.capabilities
  ok config

unfoldable pub assert_entry_address : {V : Type 0} → Entry V → String → Result SignError (Unit {0})
assert_entry_address entry expected = elim entry.credentials [
  | other_credentials name ↦ err (wrong_credentials name)
  | address_credentials address expiration signature ↦
      throw_if (not (address == expected)) (address_mismatch address expected)
]

-- `creds.address().signatureExpirationLedger(expirationLedger)`.
abbrev pub with_expiration : {V : Type 0} → ℕ → Entry V → Entry V
with_expiration expiration entry = record entry {
  credentials = elim entry.credentials [
    | other_credentials name ↦ other_credentials name
    | address_credentials address old signature ↦ address_credentials address expiration signature
  ];
}

abbrev pub with_signature : {V : Type 0} → List (SignerKey × Signature) → Entry V → Entry V
with_signature signatures entry = record entry {
  credentials = elim entry.credentials [
    | other_credentials name ↦ other_credentials name
    | address_credentials address expiration old ↦ address_credentials address expiration signatures
  ];
}

-- `capabilityRequestFor`.
abbrev pub capability_request_for : {V : Type 0} → Entry V → Option CapabilityRequest
capability_request_for entry = elim entry.root_invocation [
  | invocation fn subs ↦ elim fn [
    | other_fn name ↦ none
    | contract_fn contract name args ↦ some (record { resource_type = contract; action = name })
  ]
]

-- `comparePolicyAddresses(a, b) <= 0`, on the bytes of the two addresses.
abbrev pub bytes_le : List ℕ → List ℕ → Bool
bytes_le [] bs = true
bytes_le (a ∷ as') [] = false
bytes_le (a ∷ as') (b ∷ bs) = if a == b then bytes_le as' bs else ltb a b

-- A policy with the bytes of its address.
abbrev pub Keyed : Type 0
Keyed = List ℕ × String

-- `[...policies].sort(comparePolicyAddresses)`, which is stable: a sort by insertion.
abbrev pub insert_policy : Keyed → List Keyed → List Keyed
insert_policy p [] = p ∷ []
insert_policy p (q ∷ qs) =
    let rest = insert_policy p qs in if bytes_le p.0 q.0 then p ∷ q ∷ qs else q ∷ rest

unfoldable pub sort_policies : List Keyed → List Keyed
sort_policies [] = []
sort_policies (p ∷ ps) = insert_policy p (sort_policies ps)

-- What the signers use from outside. `produce` signs a payload hash, and gives the key's entry of
-- the signature map; `address_bytes` is `new Address(a).toBuffer()`, which throws on other texts.
pub record Signing (V : Type 0) : Type 0 where
  pub from_xdr : String → Option (Entry V)
  pub to_xdr : Entry V → String
  pub payload_hash : Entry V → ℕ → String → String
  pub produce : String → Option (SignerKey × Signature)
  pub address_bytes : String → Option (List ℕ)
  pub hook_rejects : SignerActionEvent → Bool

module _ {V : Type 0} (s : Signing V) (config : SignerConfig) where
  -- Each policy with its bytes.
  abbrev pub keyed_policies : List String → Result SignError (List Keyed)
  keyed_policies [] = ok []
  keyed_policies (p ∷ ps) = elim (s.address_bytes p) [
    | none ↦ err (malformed_policy p)
    | some bytes ↦ keyed_policies ps >>= λ rest. ok ((bytes, p) ∷ rest)
  ]

  -- `setSignatureMap`: the key's entry, then the policies'.
  abbrev pub signature_map : SignerKey × Signature → List Keyed → List (SignerKey × Signature)
  signature_map signed keyed =
      signed ∷ map (λ (p : Keyed). (policy p.1, policy_signature)) (sort_policies keyed)

  -- `payloadHashForEntry`: the entry with its expiration set, and the hash.
  abbrev pub payload_for : Entry V → String → ℕ → Result SignError (Entry V × String)
  payload_for entry network expiration = elim entry.credentials [
    | other_credentials name ↦ err (wrong_credentials name)
    | address_credentials address old signature ↦
        let dated = with_expiration expiration entry in
        ok (dated, s.payload_hash dated expiration network)
  ]

  abbrev pub parse_entry : String → Result SignError (Entry V)
  parse_entry xdr = elim (s.from_xdr xdr) [ none ↦ err malformed_entry | some entry ↦ ok entry ]

  abbrev pub ceremony : String → Result SignError (SignerKey × Signature)
  ceremony payload = elim (s.produce payload) [ none ↦ err ceremony_failed | some k ↦ ok k ]

  -- The `try` block up to the first event.
  unfoldable pub sign_entry : String → String → ℕ → Result SignError String
  sign_entry xdr network expiration = do
    entry ← parse_entry xdr
    assert_entry_address entry config.address
    (dated, payload) ← payload_for entry network expiration
    signed ← ceremony payload
    keyed ← keyed_policies config.policies
    ok (s.to_xdr (with_signature (signature_map signed keyed) dated))

  -- The `catch` block: a hook that rejects replaces the error.
  abbrev pub denied : String → SignError → SignError
  denied network e = if s.hook_rejects (deny config.address network e) then hook_failed else e

  -- `signAuthEntry`: its result, and the events that it has fired, the newest first.
  unfoldable pub sign_auth_entry :
      String → String → ℕ → Result SignError String × List SignerActionEvent
  sign_auth_entry xdr network expiration = elim (sign_entry xdr network expiration) [
    | err e ↦ (err (denied network e), deny config.address network e ∷ [])
    | ok signed ↦
        if s.hook_rejects (authorize config.address network)
        then (
          err (denied network hook_failed),
          deny config.address network hook_failed ∷ authorize config.address network ∷ [],
        )
        else (ok signed, authorize config.address network ∷ [])
  ]
