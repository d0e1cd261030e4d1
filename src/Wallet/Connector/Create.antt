-- ===== src/Wallet/Connector/Create.antt =====
-- src/passkeykit-connector.ts: when `createWallet` opens a session.
use vellar_sdk.Prelude.{
  ℕ, true, String, Option, some, List, ◌∷◌, ok, string_eq, ◌≡◌, ◌↔◌, inl, inr, arith, Option-cases,
}
use vellar_sdk.Session.Value.{Network}
use vellar_sdk.Wallet.Host.{
  Act, kit_create, submit_creation, CreatedWallet, Host, OpenSession, Wallet, same_network, ◌>>=◌,
}
use vellar_sdk.Wallet.Connector.{
  ConnectorOptions, user_of, assert_browser, assert_network, session_for, create_wallet,
}

module _ (host : Host) (options : ConnectorOptions) (username : Option (List ℕ))
    (requested : Network) (w : Wallet) where
  -- The kit made a wallet, and then the backend took its creation.
  abbrev pub IsDeployed : CreatedWallet → String → Type 0
  IsDeployed c session_id =
      (host.create_wallet w.log ≡ some c)
      × (host.submit_wallet_creation (kit_create (user_of username) ∷ w.log) ≡ some session_id)

  -- What is done in creating a wallet, newest first.
  abbrev pub creation_log : CreatedWallet → List Act
  creation_log c =
      submit_creation c.key_id c.contract_id c.signed_tx ∷ kit_create (user_of username) ∷ w.log

  -- `createWallet` gives a session exactly in a browser, for the connector's own network, when the kit
  -- has made the wallet and the backend has then taken its creation; the session is for that wallet
  -- and its passkey, and the two calls are all that was done. So no session is for an account that was
  -- not deployed.
  pub create_wallet-ok_iff :
      (s : OpenSession) (w' : Wallet)
      → (create_wallet host options username requested w ≡ (ok s, w')) ↔ (
          (c : CreatedWallet) × (session_id : String) × (host.has_credentials w.log ≡ true)
          × (same_network requested options.network ≡ true)
          × IsDeployed c session_id
          × (w' ≡ record w { log = creation_log c })
          × (s ≡ session_for host options c.contract_id (some c.key_id) (some session_id) w'))
  unfolding create_wallet assert_browser assert_network ◌>>=◌
  create_wallet-ok_iff s w' =
      (forth, λ (c, id, browser, network, deployed, log, session). ground arith)
    where
      forth :
          create_wallet host options username requested w ≡ (ok s, w')
          → ((c : CreatedWallet) × (session_id : String) × (host.has_credentials w.log ≡ true)
              × (same_network requested options.network ≡ true)
              × IsDeployed c session_id
              × (w' ≡ record w { log = creation_log c })
              × (s ≡ session_for host options c.contract_id (some c.key_id) (some session_id) w'))
      forth e = elim (Option-cases (host.create_wallet w.log)) [
        | inl failed ↦ absurd (ground arith)
        | inr (c, made) ↦
            elim (Option-cases
              (host.submit_wallet_creation (kit_create (user_of username) ∷ w.log))) [
                | inl failed ↦ absurd (ground arith)
                | inr (id, taken) ↦
                    (c, id, ground arith, ground arith, (made, taken), ground arith, ground arith)
              ]
      ]
