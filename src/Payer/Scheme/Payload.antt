-- ===== src/Payer/Scheme/Payload.antt =====
-- packages/mcp-x402-payer/src/smart-account-scheme.ts: what a payload is, and how long it is good for.
use vellar_sdk.Prelude.{
  ℕ, ◌+◌, ◌*◌, ◌≤◌, ◌<◌, any, ℤ, String, true, false, Option, some, none, List, ok, ◌≡◌, refl, sym,
  ap, ◌∙◌, arith, Bool, throw_if, min, max, ◌-◌, >>=-eq-ok, ok-eq, not, Result-cases, inl, inr,
}
use vellar_sdk.Signer.Entry.{Entry}
use vellar_sdk.Signer.AuthEntry.{ExpectedInvocation}
use vellar_sdk.Client.{sign_auth, is_own}
use vellar_sdk.Client.Entries.{AreSigned, sign_auth-AreSigned, sign_auth-own}
use vellar_sdk.Payer.Search.{big_int_text}
use vellar_sdk.Payer.Scheme.{
  SchemeRequirement, SchemeError, expiration_ledgers_for, network_passphrase, SchemeHost, or_error,
  services_at, expected_transfer, signed_entries, re_simulated, create_payment_payload,
  fees_not_sponsored, ledgers_in, unsupported_network, not_an_amount, assembly_failed, no_ledger,
}

-- The ledgers of a signature.
expiration_ledgers-bounds :
    (timeout offset : ℕ)
    → expiration_ledgers_for timeout ≡ ok offset
    → (31 ≤ timeout) × (5 ≤ offset) × (offset ≤ 58) × (5 * (offset + 1) < timeout)
unfolding expiration_ledgers_for
expiration_ledgers-bounds timeout offset e = ground arith

-- A timeout is workable from 31 seconds on.
pub expiration_ledgers-viable :
    (timeout : ℕ) → 31 ≤ timeout → (offset : ℕ) × (expiration_ledgers_for timeout ≡ ok offset)
unfolding expiration_ledgers_for
expiration_ledgers-viable timeout h = (max (ledgers_in (min timeout 300) - 2) 3, ground arith)

or_error-ok :
    {A : Type 0} (x : SchemeError) (o : Option A) (a : A) → or_error x o ≡ ok a → o ≡ some a
or_error-ok x none a h = cc h
or_error-ok x (some b) a h = ap some (ok-eq h)

module _ {V : Type 0} (host : SchemeHost V) where
  -- The payload's transaction was assembled for exactly the payment that is required, under the
  -- passphrase of its network, and holds these entries.
  pub record IsRequired (q : SchemeRequirement) (transaction : String) : Type 0 where
    pub passphrase : String
    pub amount : ℤ
    pub latest : ℕ
    pub offset : ℕ
    pub auth : List (Entry V)
    pub out : List (Entry V)
    pub known : network_passphrase q.network ≡ some passphrase
    pub sponsored : q.are_fees_sponsored ≡ some true
    pub parsed : big_int_text q.amount ≡ some amount
    pub assembled : host.assemble passphrase (expected_transfer host q amount) ≡ some auth
    pub at_latest : host.latest_ledger ≡ some latest
    -- the signatures: until when, of what, and that there is one
    pub viable : 5 ≤ offset
    pub limited : offset ≤ 58
    pub in_time : 5 * (offset + 1) < q.max_timeout_seconds
    pub signed :
        AreSigned
          (services_at host passphrase)
          (expected_transfer host q amount)
          (latest + offset)
          auth
          out
    pub own : any (is_own (services_at host passphrase)) auth ≡ true
    -- the signed entries were simulated again, and are sent
    pub simulated : host.simulate out ≡ ok tt
    pub sent : transaction ≡ host.to_xdr out

  sponsored-eq :
      (o : Option Bool)
      → throw_if (elim o [ none ↦ true | some b ↦ not b ]) fees_not_sponsored ≡ ok tt
      → o ≡ some true
  sponsored-eq none h = cc h
  sponsored-eq (some true) h = refl
  sponsored-eq (some false) h = cc h

  signed_entries-ok :
      (p : String) (x : ExpectedInvocation) (n : ℕ) (auth out : List (Entry V))
      → signed_entries host p x n auth ≡ ok out
      → sign_auth (services_at host p) x n auth ≡ ok out
  signed_entries-ok p x n auth out h =
      elim (Result-cases (sign_auth (services_at host p) x n auth)) [
        | inl (e, k) ↦ cc (rw (k, signed_entries) at h)
        | inr (o, k) ↦ k ∙ ap ok (ok-eq (rw (k, signed_entries) at h))
      ]

  re_simulated-ok :
      (out : List (Entry V)) → re_simulated host out ≡ ok tt → host.simulate out ≡ ok tt
  re_simulated-ok out h = elim (Result-cases (host.simulate out)) [
    | inl (e, k) ↦ cc (rw (k, re_simulated) at h)
    | inr (u, k) ↦ k
  ]

  -- A payload is created only for a sponsored payment on a known network, whose every own entry in
  -- the assembled transaction authorizes exactly the required transfer: these entries, at least one,
  -- are signed, for 5 to 58 ledgers which end more than 5 seconds before the seller's timeout, and what
  -- was signed passed a simulation and is what is sent.
  pub create_payload-IsRequired :
      (q : SchemeRequirement) (transaction : String)
      → create_payment_payload host q ≡ ok transaction
      → IsRequired q transaction
  unfolding create_payment_payload
  create_payload-IsRequired q transaction h =
      let (passphrase, a1, h1) =
        >>=-eq-ok (or_error unsupported_network (network_passphrase q.network)) _ h in
      let (u2, a2, h2) =
        >>=-eq-ok
          (throw_if (elim q.are_fees_sponsored [ none ↦ true | some b ↦ not b ]) fees_not_sponsored)
          _ h1 in
      let (amount, a3, h3) = >>=-eq-ok (or_error not_an_amount (big_int_text q.amount)) _ h2 in
      let x = expected_transfer host q amount in
      let (auth, a4, h4) = >>=-eq-ok (or_error assembly_failed (host.assemble passphrase x)) _ h3 in
      let (latest, a5, h5) = >>=-eq-ok (or_error no_ledger host.latest_ledger) _ h4 in
      let (offset, a6, h6) = >>=-eq-ok (expiration_ledgers_for q.max_timeout_seconds) _ h5 in
      let (out, a7, h7) =
        >>=-eq-ok (signed_entries host passphrase x (latest + offset) auth) _ h6 in
      let (u8, a8, h8) = >>=-eq-ok (re_simulated host out) _ h7 in
      let (b0, b1, b2, b3) = expiration_ledgers-bounds q.max_timeout_seconds offset a6 in
      let done = signed_entries-ok passphrase x (latest + offset) auth out a7 in
      record {
        passphrase = passphrase;
        amount = amount;
        latest = latest;
        offset = offset;
        auth = auth;
        out = out;
        known = or_error-ok _ _ _ a1;
        sponsored = sponsored-eq q.are_fees_sponsored a2;
        parsed = or_error-ok _ _ _ a3;
        assembled = or_error-ok _ _ _ a4;
        at_latest = or_error-ok _ _ _ a5;
        viable = b1;
        limited = b2;
        in_time = b3;
        signed =
            sign_auth-AreSigned (services_at host passphrase) x (latest + offset) auth out done;
        own = sign_auth-own (services_at host passphrase) x (latest + offset) auth out done;
        simulated = re_simulated-ok out a8;
        sent = sym (ok-eq h8);
      }
