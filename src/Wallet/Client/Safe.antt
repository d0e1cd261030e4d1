-- ===== src/Wallet/Client/Safe.antt =====
-- src/client.ts: what the client signs and whom it gives limits to, over any use of its operations.
use mathlib.Core.Path.{subst}
use vellar_sdk.Prelude.{
  ℕ, pos, le_ℤ, Bool, true, false, String, Option, none, some, List, [], ◌∷◌, Result, ok, ◌==◌,
  string_eq, ◌≡◌, sym, inl, inr, arith, Option-cases,
}
use vellar_sdk.Wallet.Host.{
  Signed, Act, built, kit_sign, submitted, added_agent, Host, Wallet, Keeps, >>=-Keeps, lift-Keeps,
  WalletError, ◌>>=◌, KitConnect,
}
use vellar_sdk.Wallet.Connector.{
  create_wallet, connect_wallet, assert_browser, assert_network, kit_connect_wallet,
  get_contract_id, rotated, default_signed_to_xdr,
}
use vellar_sdk.Wallet.Payments.{signed_or}
use vellar_sdk.Wallet.Agents.{
  MintAgentInput, require_session, resume_key, validate_mint, mint_agent, revoke_agent,
}
use vellar_sdk.Wallet.Agents.Limited.{IsLimited, validate_mint_iff}
use vellar_sdk.Wallet.Policies.{deploy_policy, record_deployment}
use vellar_sdk.Wallet.Client.{
  VellarWalletConfig, PayInput, create, connect, pay, mint, revoke, deploy, connector_options,
}
use vellar_sdk.Wallet.Client.Pays.{
  PayEnds, refused, unbuilt, unsigned, unreadable, sent, pay-PayEnds,
}

-- The operations of the client, as its user may call them.
pub data Operation : Type 0 where
  creates : Option (List ℕ) → Operation
  connects : Operation
  pays : PayInput → Operation
  mints : MintAgentInput → Operation
  revokes : String → Operation
  deploys : String → Operation

module _ (host : Host) (is_valid_address : String → Bool) (config : VellarWalletConfig) where
  unfoldable pub operate : Operation → Wallet → Wallet
  operate (creates username) w = (create host is_valid_address config username w).1
  operate connects w = (connect host is_valid_address config w).1
  operate (pays input) w = (pay host is_valid_address config input w).1
  operate (mints input) w = (mint host is_valid_address config input w).1
  operate (revokes key) w = (revoke host is_valid_address config key w).1
  operate (deploys policy) w = (deploy host is_valid_address config policy w).1

  unfoldable pub operate_all : List Operation → Wallet → Wallet
  operate_all [] w = w
  operate_all (o ∷ os) w = operate_all os (operate o w)

  -- The transaction is what the host built, after the log, for a positive amount to a valid recipient
  -- other than the sender.
  abbrev pub IsBuiltBy : Signed → Act → List Act → Type 0
  IsBuiltBy tx (built token from to amount) log =
      (host.transfer log ≡ some tx)
      × (is_valid_address to ≡ true)
      × ((to == from) ≡ false)
      × (le_ℤ amount (pos 0) ≡ false)
  IsBuiltBy tx _ log = ⊥

  -- The text is of what the passkey answered, after the log, when it was asked to sign the transaction.
  abbrev pub IsSignedFrom : String → Signed → List Act → Type 0
  IsSignedFrom xdr tx log =
      (signed : Option Signed) × (host.sign log ≡ some signed)
      × (default_signed_to_xdr (signed_or tx signed) ≡ ok xdr)

  -- Whatever the passkey is asked to sign is the transaction that was built just before, whatever is
  -- submitted is what the passkey made of the transaction just before, and every agent key that is added has limits.
  abbrev pub IsSafe : List Act → Type 0
  IsSafe [] = Unit
  IsSafe (added_agent k ∷ log) = IsLimited k.public_key k.grants × IsSafe log
  IsSafe (kit_sign tx ∷ []) = ⊥
  IsSafe (kit_sign tx ∷ a ∷ log) = IsBuiltBy tx a log × IsSafe (a ∷ log)
  IsSafe (submitted xdr ∷ kit_sign tx ∷ log) = IsSignedFrom xdr tx log × IsSafe (kit_sign tx ∷ log)
  IsSafe (submitted xdr ∷ _) = ⊥
  IsSafe (_ ∷ log) = IsSafe log

  abbrev pub IsSafeWallet : Wallet → Type 0
  IsSafeWallet w = IsSafe w.log

  -- An operation that keeps a wallet safe.
  abbrev KeepsSafe : {A : Type 0} → (Wallet → Result WalletError A × Wallet) → Type 0
  KeepsSafe m = Keeps IsSafeWallet m

  require_session-KeepsSafe : KeepsSafe require_session
  unfolding require_session
  require_session-KeepsSafe w h = h

  resume_key-KeepsSafe : (b : Bool) (k : Option String) → KeepsSafe (resume_key host b k)
  unfolding resume_key
  resume_key-KeepsSafe b none w h = h
  resume_key-KeepsSafe b (some k) w h = ground arith

  create-KeepsSafe :
      (username : Option (List ℕ)) → KeepsSafe (create host is_valid_address config username)
  unfolding create create_wallet assert_browser assert_network
  create-KeepsSafe username =
      >>=-Keeps IsSafeWallet _ _
        (>>=-Keeps IsSafeWallet _ _ (λ w h. h)
          λ _.
            >>=-Keeps IsSafeWallet _ _ (λ w h. h)
              λ _.
                >>=-Keeps IsSafeWallet _ _ (λ w h. h)
                  λ c. >>=-Keeps IsSafeWallet _ _ (λ w h. h) λ id w h. h)
        λ s w h. h

  kit_connect-KeepsSafe :
      (c : KitConnect)
      → KeepsSafe (kit_connect_wallet host (connector_options host is_valid_address config) c)
  unfolding kit_connect_wallet get_contract_id
  kit_connect-KeepsSafe c w h = ground arith

  connect-KeepsSafe : KeepsSafe (connect host is_valid_address config)
  unfolding connect connect_wallet assert_browser assert_network rotated
  connect-KeepsSafe =
      >>=-Keeps IsSafeWallet _ _
        (>>=-Keeps IsSafeWallet _ _ (λ w h. h)
          λ _.
            >>=-Keeps IsSafeWallet _ _ (λ w h. h)
              λ _.
                >>=-Keeps IsSafeWallet _ _ (λ w h. h)
                  λ c. >>=-Keeps IsSafeWallet _ _ (kit_connect-KeepsSafe c) λ id w h. h)
        λ s w h. h

  mint-KeepsSafe : (input : MintAgentInput) → KeepsSafe (mint host is_valid_address config input)
  unfolding mint mint_agent
  mint-KeepsSafe input =
      >>=-Keeps IsSafeWallet _ _ (λ w h. h)
        λ _. >>=-Keeps IsSafeWallet _ _ require_session-KeepsSafe λ s.
          lift-Keeps IsSafeWallet (validate_mint input) _ λ _ passed.
            >>=-Keeps IsSafeWallet _ _ (λ w h. h)
              λ e. >>=-Keeps IsSafeWallet _ _ (resume_key-KeepsSafe _ s.key_id) λ _.
                >>=-Keeps IsSafeWallet _ _ (λ w h. ((validate_mint_iff input).0 passed, h))
                  λ r w h. h

  revoke-KeepsSafe : (key : String) → KeepsSafe (revoke host is_valid_address config key)
  unfolding revoke revoke_agent
  revoke-KeepsSafe key =
      >>=-Keeps IsSafeWallet _ _ (λ w h. h)
        λ _. >>=-Keeps IsSafeWallet _ _ require_session-KeepsSafe λ s.
          >>=-Keeps IsSafeWallet _ _ (λ w h. h)
            λ _. >>=-Keeps IsSafeWallet _ _ (resume_key-KeepsSafe _ s.key_id) λ _ w h. h

  deploy-KeepsSafe : (policy : String) → KeepsSafe (deploy host is_valid_address config policy)
  unfolding deploy deploy_policy record_deployment
  deploy-KeepsSafe policy =
      >>=-Keeps IsSafeWallet _ _ (λ w h. h)
        λ _. >>=-Keeps IsSafeWallet _ _ require_session-KeepsSafe λ s.
          >>=-Keeps IsSafeWallet _ _ (λ w h. h)
            λ _.
              >>=-Keeps IsSafeWallet _ _ (λ w h. h)
                λ c. >>=-Keeps IsSafeWallet _ _ (resume_key-KeepsSafe _ s.key_id) λ _.
                  >>=-Keeps IsSafeWallet _ _ (λ w h. h)
                    λ hash. >>=-Keeps IsSafeWallet _ _ (λ w h. h) λ _ w h. h

  -- The log that each end of a payment leaves.
  ends-IsSafe :
      (from : String) (input : PayInput) (w : Wallet) (r : Result WalletError String) (w' : Wallet)
      → PayEnds host is_valid_address config from input w r w'
      → IsSafeWallet w
      → IsSafeWallet w'
  ends-IsSafe from input w r w' (refused e n) h = h
  ends-IsSafe from input w r w' (unbuilt p b) h = h
  ends-IsSafe from input w r w' (unsigned tx (v, o, n) b d) h = ((b, v, o, n), h)
  ends-IsSafe from input w r w' (unreadable tx signed e (v, o, n) b t d) h = ((b, v, o, n), h)
  ends-IsSafe from input w r w' (sent tx signed xdr (v, o, n) b t d) h =
      ((signed, t, d), ((b, v, o, n), h))

  pay-closed :
      (input : PayInput) (w : Wallet)
      → w.opened ≡ none
      → (pay host is_valid_address config input w).1 ≡ w
  unfolding pay require_session ◌>>=◌
  pay-closed input w e = ground arith

  pay-KeepsSafe : (input : PayInput) → KeepsSafe (pay host is_valid_address config input)
  pay-KeepsSafe input w h = elim (Option-cases w.opened) [
    | inl closed ↦ subst IsSafeWallet (sym (pay-closed input w closed)) h
    | inr (s, e) ↦
        ends-IsSafe s.session.account_id input w _ _
          (pay-PayEnds host is_valid_address config input w s e) h
  ]

  operate-IsSafe : (o : Operation) (w : Wallet) → IsSafeWallet w → IsSafeWallet (operate o w)
  unfolding operate
  operate-IsSafe (creates username) w h = create-KeepsSafe username w h
  operate-IsSafe connects w h = connect-KeepsSafe w h
  operate-IsSafe (pays input) w h = pay-KeepsSafe input w h
  operate-IsSafe (mints input) w h = mint-KeepsSafe input w h
  operate-IsSafe (revokes key) w h = revoke-KeepsSafe key w h
  operate-IsSafe (deploys policy) w h = deploy-KeepsSafe policy w h

  -- Over any sequence of the client's operations and whatever the host answers, from a wallet whose
  -- log is safe (an empty one is): the passkey of `pay` is only ever asked to sign the transaction
  -- that was built just before, for a positive amount to a valid recipient other than the sender;
  -- what is submitted is only ever the text of what the passkey answered just before to this; and
  -- every agent key that is added has at least one grant, each of them under at least one policy
  -- contract.
  pub operate_all-IsSafe :
      (os : List Operation) (w : Wallet) → IsSafeWallet w → IsSafeWallet (operate_all os w)
  unfolding operate_all
  operate_all-IsSafe [] w h = h
  operate_all-IsSafe (o ∷ os) w h = operate_all-IsSafe os (operate o w) (operate-IsSafe o w h)
