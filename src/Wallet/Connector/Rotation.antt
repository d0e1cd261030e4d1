-- ===== src/Wallet/Connector/Rotation.antt =====
-- src/passkeykit-connector.ts: which session keys are revoked, and that rotation is in nobody's way.
use vellar_sdk.Prelude.{
  true, false, String, Option, none, some, List, [], ◌∷◌, Result, ok, err, ◌==◌, string_eq, ◌≡◌,
  refl, ◌⊎◌, inl, inr, arith, Bool-cases, Option-cases,
}
use vellar_sdk.Session.Value.{Network}
use vellar_sdk.Wallet.Host.{
  Act, minted, revoked, kit_connect, debug, Host, KitConnect, OpenSession, Wallet, log_act,
  WalletError, ◌>>=◌, Keeps, >>=-Keeps,
}
use vellar_sdk.Wallet.Connector.{
  ConnectorOptions, assert_browser, assert_network, session_for, revoke_previous,
  rotate_session_key, get_contract_id, kit_connect_wallet, rotated, connect_wallet,
}

abbrev pub WasMinted : String → List Act → Type 0
WasMinted k [] = ⊥
WasMinted k (minted j ∷ log) = (k ≡ j) ⊎ WasMinted k log
WasMinted k (_ ∷ log) = WasMinted k log

abbrev pub WasRevoked : String → List Act → Type 0
WasRevoked k [] = ⊥
WasRevoked k (revoked j ∷ log) = (k ≡ j) ⊎ WasRevoked k log
WasRevoked k (_ ∷ log) = WasRevoked k log

-- `mint` never gives a key twice.
pub record MintsFresh (host : Host) : Type 0 where
  pub fresh_key : (log : List Act) (k : String) → host.mint log ≡ some k → WasMinted k log → ⊥

-- The active key was minted and never revoked, and nothing was revoked that was not minted.
pub record IsRotating (w : Wallet) : Type 0 where
  pub active_minted : (k : String) → w.active_key ≡ some k → WasMinted k w.log
  pub active_live : (k : String) → w.active_key ≡ some k → WasRevoked k w.log → ⊥
  pub revoked_minted : (k : String) → WasRevoked k w.log → WasMinted k w.log

module _ (host : Host) (options : ConnectorOptions) where
  unfoldable pub connect_all : List Network → Wallet → Wallet
  connect_all [] w = w
  connect_all (n ∷ ns) w = connect_all ns (connect_wallet host options n w).1

module _ (host : Host) (options : ConnectorOptions) (mints : MintsFresh host) where
  -- A log that says which keys were minted and revoked, and no key of it twice.
  revoke_previous-IsRotating :
      (old : Option String) (k : String) (w : Wallet)
      → IsRotating w
      → w.active_key ≡ some k
      → ((j : String) → old ≡ some j → WasMinted j w.log × ((k ≡ j) → ⊥))
      → IsRotating (revoke_previous host options old w)
  unfolding revoke_previous
  revoke_previous-IsRotating none k w h e olds = h
  revoke_previous-IsRotating (some j) k w h e olds = elim (Bool-cases (j == "")) [
    | inl none_before ↦ rw none_before h
    | inr given ↦ rw given (record {
      active_minted = h.active_minted;
      active_live = λ i at was. elim was [
        | inl same ↦ (olds j refl).1 (cc)
        | inr before ↦ h.active_live i at before
      ];
      revoked_minted = λ i was. elim was [
        | inl same ↦ rw same (olds j refl).0
        | inr before ↦ h.revoked_minted i before
      ];
    })
  ]

  rotate-IsRotating : (w : Wallet) → IsRotating w → IsRotating (rotate_session_key host options w)
  unfolding rotate_session_key
  rotate-IsRotating w h = elim (Option-cases (host.mint w.log)) [
    | inl failed ↦
        rw (failed, rotate_session_key)
          (record {
            active_minted = h.active_minted;
            active_live = h.active_live;
            revoked_minted = h.revoked_minted;
          })
    | inr (k, e) ↦
        rw (e, rotate_session_key)
          (revoke_previous-IsRotating w.active_key k
            (record w { active_key = some k; log = debug "session-key-rotated" ∷ minted k ∷ w.log })
            (record {
              active_minted = λ j at. inl (cc);
              active_live = λ j at was.
                  let same : j ≡ k = cc in
                  let before : WasRevoked j w.log = was in
                  mints.fresh_key w.log k e (h.revoked_minted k (rw same at before));
              revoked_minted = λ j was. inr (h.revoked_minted j was);
            })
            refl
            (λ j at. (
              inr (h.active_minted j at),
              λ same. mints.fresh_key w.log k e (rw (← same) at (h.active_minted j at)),
            )))
  ]

  asked-IsRotating : (w : Wallet) → IsRotating w → IsRotating (log_act kit_connect w)
  asked-IsRotating w h = record {
    active_minted = h.active_minted;
    active_live = h.active_live;
    revoked_minted = h.revoked_minted;
  }

  get_contract_id-IsRotating :
      (key : Option String) (w : Wallet)
      → IsRotating w
      → IsRotating (get_contract_id host options key w).1
  unfolding get_contract_id
  get_contract_id-IsRotating none w h = h
  get_contract_id-IsRotating (some k) w h = record {
    active_minted = h.active_minted;
    active_live = h.active_live;
    revoked_minted = h.revoked_minted;
  }

  kit_connect-IsRotating :
      (c : KitConnect) (w : Wallet)
      → IsRotating w
      → IsRotating (kit_connect_wallet host options c w).1
  unfolding kit_connect_wallet
  kit_connect-IsRotating c w h = get_contract_id-IsRotating c.looks_up w h

  rotated-IsRotating : (w : Wallet) → IsRotating w → IsRotating (rotated host options w)
  unfolding rotated rotate_session_key revoke_previous
  rotated-IsRotating w h = elim (Bool-cases options.rotates) [
    | inl rotates ↦ rw (rotates, rotated) (rotate-IsRotating w h)
    | inr keeps ↦ rw (keeps, rotated) h
  ]

  connect_wallet-IsRotating :
      (requested : Network) → Keeps IsRotating (connect_wallet host options requested)
  unfolding connect_wallet assert_browser assert_network
  connect_wallet-IsRotating requested =
      >>=-Keeps IsRotating _ _ (λ w h. h)
        λ _.
          >>=-Keeps IsRotating _ _ (λ w h. h)
            λ _.
              >>=-Keeps IsRotating _ _ asked-IsRotating
                λ c. >>=-Keeps IsRotating _ _ (kit_connect-IsRotating c) λ _. rotated-IsRotating

  -- However often a wallet reconnects, and whatever the kit, the backend and the rotation runtime do,
  -- the session key that is active was minted and is not revoked, and only keys that were minted are
  -- revoked: rotation never leaves the wallet without its key. `mint` never gives a key twice.
  pub connect_all-IsRotating :
      (requests : List Network) (w : Wallet)
      → IsRotating w
      → IsRotating (connect_all host options requests w)
  unfolding connect_all
  connect_all-IsRotating [] w h = h
  connect_all-IsRotating (n ∷ ns) w h =
      connect_all-IsRotating ns (connect_wallet host options n w).1
        (connect_wallet-IsRotating n w h)

-- What a session says of the wallet, without its timestamps; or the error.
abbrev pub identity_of :
    Result WalletError OpenSession → Result WalletError (String × Option String × Option String)
identity_of (err e) = err e
identity_of (ok s) = ok (s.session.account_id, s.key_id, s.server_session_id)

-- Rotation changes nothing of what `connectWallet` returns but the timestamps: whether minting and
-- revoking succeed or not, it fails with the same error or opens the same wallet as without rotation.
pub connect_wallet-identity :
    (host : Host) (network requested : Network) (w : Wallet)
    → identity_of (connect_wallet host (record { network = network; rotates = true }) requested w).0
      ≡ identity_of
          (connect_wallet host (record { network = network; rotates = false }) requested w).0
unfolding connect_wallet assert_browser assert_network kit_connect_wallet get_contract_id
    session_for ◌>>=◌
connect_wallet-identity host network requested w = ground arith
