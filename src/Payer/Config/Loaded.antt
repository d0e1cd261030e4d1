-- ===== src/Payer/Config/Loaded.antt =====
-- packages/mcp-x402-payer/src/config.ts: what every configuration that is loaded satisfies.
use vellar_sdk.Prelude.{
  ℕ, ◌<◌, ℤ, pos, ◌≤ℤ◌, Bool, true, false, not, ◌&&◌, String, Option, some, List, [], ◌∷◌, map,
  is_empty, ok, ◌==◌, string_eq, ◌≡◌, refl, ◌⊎◌, inl, inr, arith, eq_iff, Bool-cases, Result-cases,
}
use vellar_sdk.Payer.Ledger.{Amounts, get, create_spend_ledger}
use vellar_sdk.Payer.Ledger.Spent.{IsWithin, IsWithin-create}
use vellar_sdk.Payer.Config.{
  Environment, LoadedConfig, trimmed, required_text, read_secret, parse_network, parse_assets,
  parse_policies, parse_max_response_bytes, is_missing, bad_wallet_address, caip2_by_network,
  config_of, load_config,
}
use vellar_sdk.Payer.Config.Assets.{
  AreCeilings, ArePolicies, parse_assets-AreCeilings, parse_policies-ArePolicies,
}

module _ (is_valid_secret is_valid_contract : String → Bool) where
  pub record IsLoaded (c : LoadedConfig) : Type 0 where
    pub secret_is_valid : is_valid_secret c.secret ≡ true
    pub network_is_known : (c.network ≡ "testnet") ⊎ (c.network ≡ "mainnet")
    pub caip2_is_of_network : c.caip2 ≡ caip2_by_network c.network
    pub ceilings_are_positive : AreCeilings is_valid_contract c.ceilings
    pub some_asset : is_empty c.ceilings ≡ false
    pub allowed_have_ceilings : c.allowed_assets ≡ map (λ (e : String × ℤ). e.0) c.ceilings
    pub room : 0 < c.max_response_bytes
    pub wallet_is_contract :
        bad_wallet_address is_valid_secret is_valid_contract c.wallet_address ≡ false
    pub policies_are_contracts : ArePolicies is_valid_contract c.policies
    pub policies_need_wallet :
        (c.policies ≡ []) ⊎ (is_missing is_valid_secret is_valid_contract c.wallet_address ≡ false)

  read_secret-valid :
      (env : Environment) (secret : String)
      → read_secret is_valid_secret is_valid_contract env ≡ ok secret
      → is_valid_secret secret ≡ true
  unfolding read_secret
  read_secret-valid env secret e = ground arith

  parse_network-known :
      (raw : Option String) (n : String)
      → parse_network raw ≡ ok n
      → (n ≡ "testnet") ⊎ (n ≡ "mainnet")
  unfolding parse_network
  parse_network-known raw n e = ground (arith, eq_iff n "testnet", eq_iff n "mainnet")

  parse_max_response_bytes-positive :
      (raw : Option String) (n : ℕ) → parse_max_response_bytes raw ≡ ok n → 0 < n
  unfolding parse_max_response_bytes
  parse_max_response_bytes-positive raw n e = ground arith

  -- What a configuration that is loaded was read from.
  record Parts (env : Environment) (c : LoadedConfig) : Type 0 where
    secret : String
    network : String
    raw_assets : String
    ceilings : Amounts
    bytes : ℕ
    policies : List String
    secret_read : read_secret is_valid_secret is_valid_contract env ≡ ok secret
    network_read : parse_network env.network ≡ ok network
    assets_read : parse_assets is_valid_contract raw_assets ≡ ok ceilings
    bytes_read : parse_max_response_bytes env.max_response_bytes ≡ ok bytes
    policies_read : parse_policies is_valid_contract env.policies ≡ ok policies
    wallet_passed :
        bad_wallet_address is_valid_secret is_valid_contract (trimmed env.wallet) ≡ false
    policies_passed :
        (not (is_empty policies)
          && is_missing is_valid_secret is_valid_contract (trimmed env.wallet))
        ≡ false
    built :
        c ≡ config_of is_valid_secret is_valid_contract env secret network ceilings bytes policies

  load_config-Parts :
      (env : Environment) (c : LoadedConfig)
      → load_config is_valid_secret is_valid_contract env ≡ ok c
      → Parts env c
  unfolding load_config
  load_config-Parts env c e =
      elim (Result-cases (read_secret is_valid_secret is_valid_contract env)) [
        | inl (x, bad) ↦ absurd (ground arith)
        | inr (secret, e1) ↦ elim (Result-cases (parse_network env.network)) [
          | inl (x, bad) ↦ absurd (ground arith)
          | inr (network, e2) ↦ elim (Result-cases (required_text env.assets)) [
            | inl (x, bad) ↦ absurd (ground arith)
            | inr (raw, e3) ↦ elim (Result-cases (parse_assets is_valid_contract raw)) [
              | inl (x, bad) ↦ absurd (ground arith)
              | inr (ceilings, e4) ↦
                  elim (Result-cases (parse_max_response_bytes env.max_response_bytes)) [
                    | inl (x, bad) ↦ absurd (ground arith)
                    | inr (bytes, e5) ↦
                        elim (Result-cases (parse_policies is_valid_contract env.policies)) [
                          | inl (x, bad) ↦ absurd (ground arith)
                          | inr (policies, e6) ↦ record {
                            secret = secret;
                            network = network;
                            raw_assets = raw;
                            ceilings = ceilings;
                            bytes = bytes;
                            policies = policies;
                            secret_read = e1;
                            network_read = e2;
                            assets_read = e4;
                            bytes_read = e5;
                            policies_read = e6;
                            wallet_passed = ground arith;
                            policies_passed = ground arith;
                            built = ground arith;
                          }
                        ]
                  ]
            ]
          ]
        ]
      ]

  no_policies :
      (ps : List String) (b : Bool) → (not (is_empty ps) && b) ≡ false → (ps ≡ []) ⊎ (b ≡ false)
  no_policies [] b e = inl refl
  no_policies (p ∷ ps) b e = inr e

  -- Every configuration that is loaded has a valid secret, a known network with its chain id, at least
  -- one allowed asset, each of them once and with a positive ceiling, room for a response, and its
  -- policies, each once and a contract, only together with a wallet; a wallet is a contract.
  pub load_config-IsLoaded :
      (env : Environment) (c : LoadedConfig)
      → load_config is_valid_secret is_valid_contract env ≡ ok c
      → IsLoaded c
  load_config-IsLoaded env c e =
      let p = load_config-Parts env c e in
      let (ceilings, some_asset) =
        parse_assets-AreCeilings is_valid_contract p.raw_assets p.ceilings p.assets_read in
      rw p.built (record {
        secret_is_valid = read_secret-valid env p.secret p.secret_read;
        network_is_known = parse_network-known env.network p.network p.network_read;
        caip2_is_of_network = refl;
        ceilings_are_positive = ceilings;
        some_asset = some_asset;
        allowed_have_ceilings = refl;
        room = parse_max_response_bytes-positive env.max_response_bytes p.bytes p.bytes_read;
        wallet_is_contract = p.wallet_passed;
        policies_are_contracts =
            parse_policies-ArePolicies is_valid_contract env.policies p.policies p.policies_read;
        policies_need_wallet = no_policies p.policies _ p.policies_passed;
      })

  get-AreCeilings :
      (m : Amounts) (k : String) (c : ℤ)
      → AreCeilings is_valid_contract m
      → get k m ≡ some c
      → pos 0 ≤ℤ c
  unfolding get
  get-AreCeilings [] k c h e = ground arith
  get-AreCeilings ((j, v) ∷ m) k c (a, b, z, d, h) e = elim (Bool-cases (j == k)) [
    | inl here ↦ ground arith
    | inr later ↦ get-AreCeilings m k c h (ground arith)
  ]

  -- The ledger that a loaded configuration starts with is within its ceilings.
  pub load_config-IsWithin :
      (env : Environment) (c : LoadedConfig)
      → load_config is_valid_secret is_valid_contract env ≡ ok c
      → IsWithin (create_spend_ledger c.ceilings)
  load_config-IsWithin env c e =
      let h = load_config-IsLoaded env c e in
      IsWithin-create c.ceilings
        (λ k n found. get-AreCeilings c.ceilings k n h.ceilings_are_positive found)
