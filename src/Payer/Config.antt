-- ===== src/Payer/Config.antt =====
-- packages/mcp-x402-payer/src/config.ts: the configuration that is read from the environment. The tests
-- of StrKey and the reading of a file are parameters.
pub mod Assets
pub mod Loaded
mod Tests
use Prim.Native.Char.{Char, code}
use vellar_sdk.Prelude.{
  ℕ, suc, ℤ, pos, Bool, true, false, not, ◌&&◌, ◌||◌, String, Option, none, some, List, [], ◌∷◌,
  ◌++◌, map, any, is_empty, Result, ok, err, ◌>>=◌, ◌>>◌, throw_if, codes, all_digits, big_int, leb,
  ◌==◌, string_eq, nat_eq, if◌then◌else◌,
}
use vellar_sdk.Tokens.{is_space}
use vellar_sdk.Payer.Ledger.{Amounts, get, put}

pub data ConfigError : Type 0 where
  required both_secrets no_secret unreadable_secret invalid_secret : ConfigError
  malformed_asset not_a_contract bad_ceiling zero_ceiling repeated_asset no_assets : ConfigError
  bad_policy repeated_policy bad_network bad_max_bytes zero_max_bytes : ConfigError
  bad_wallet policies_without_wallet : ConfigError

abbrev pub is_blank : String → Bool
is_blank String.[] = true
is_blank (String.◌∷◌ c s) = false

-- `text.trim()`.
unfoldable pub trim_start : String → String
trim_start String.[] = String.[]
trim_start (String.◌∷◌ c s) =
    let rest = trim_start s in if is_space (code c) then rest else String.◌∷◌ c s

unfoldable pub trim_end : String → String
trim_end String.[] = String.[]
trim_end (String.◌∷◌ c s) =
    let rest = trim_end s in
    if is_blank rest && is_space (code c) then String.[] else String.◌∷◌ c rest

unfoldable pub trim_text : String → String
trim_text s = trim_end (trim_start s)

-- One more character in front of the first part.
abbrev pub onto_first : Char → List String → List String
onto_first c [] = String.◌∷◌ c String.[] ∷ []
onto_first c (p ∷ ps) = String.◌∷◌ c p ∷ ps

-- `text.split(separator)`, for a separator of one character.
unfoldable pub split_at : ℕ → String → List String
split_at separator String.[] = "" ∷ []
split_at separator (String.◌∷◌ c s) =
    let rest = split_at separator s in if code c == separator then "" ∷ rest else onto_first c rest

-- `env.NAME?.trim()`, where an empty text counts as absent.
abbrev pub trimmed : Option String → Option String
trimmed none = none
trimmed (some s) = if is_blank (trim_text s) then none else some (trim_text s)

module _ (is_valid_contract : String → Bool) where
  -- An entry of two parts.
  unfoldable pub parse_pair : String → String → Amounts → Result ConfigError Amounts
  parse_pair asset ceiling ceilings = do
    throw_if (not (is_valid_contract asset)) not_a_contract
    throw_if (not (all_digits (codes ceiling))) bad_ceiling
    throw_if (big_int (codes ceiling) == 0) zero_ceiling
    elim (get asset ceilings) [
      | some _ ↦ err repeated_asset
      | none ↦ ok (put asset (pos (big_int (codes ceiling))) ceilings)
    ]

  unfoldable pub parse_parts : List String → Amounts → Result ConfigError Amounts
  parse_parts (asset ∷ ceiling ∷ []) ceilings =
      parse_pair (trim_text asset) (trim_text ceiling) ceilings
  parse_parts _ ceilings = err malformed_asset

  unfoldable pub parse_entry : String → Amounts → Result ConfigError Amounts
  parse_entry entry ceilings =
      if is_blank (trim_text entry)
      then ok ceilings
      else parse_parts (split_at b':' (trim_text entry)) ceilings

  -- The loop of `parseAssets`.
  unfoldable pub parse_entries : List String → Amounts → Result ConfigError Amounts
  parse_entries [] ceilings = ok ceilings
  parse_entries (e ∷ es) ceilings = elim (parse_entry e ceilings) [
    | err x ↦ err x
    | ok ceilings' ↦ parse_entries es ceilings'
  ]

  unfoldable pub parse_assets : String → Result ConfigError Amounts
  parse_assets raw = do
    ceilings ← parse_entries (split_at b',' raw) []
    if is_empty ceilings then err no_assets else ok ceilings

  abbrev pub includes : String → List String → Bool
  includes x = any (λ y. y == x)

  unfoldable pub parse_policy : String → List String → Result ConfigError (List String)
  parse_policy policy out =
      if is_blank policy
      then ok out
      else if not (is_valid_contract policy)
      then err bad_policy
      else if includes policy out
      then err repeated_policy
      else ok (out ++ policy ∷ [])

  -- The loop of `parsePolicies`.
  unfoldable pub policies_from : List String → List String → Result ConfigError (List String)
  policies_from [] out = ok out
  policies_from (e ∷ es) out = elim (parse_policy (trim_text e) out) [
    | err x ↦ err x
    | ok out' ↦ policies_from es out'
  ]

  unfoldable pub parse_policies : Option String → Result ConfigError (List String)
  parse_policies none = ok []
  parse_policies (some raw) =
      if is_blank (trim_text raw) then ok [] else policies_from (split_at b',' raw) []

-- The network, by its name.
unfoldable pub parse_network : Option String → Result ConfigError String
parse_network raw =
    let value = trim_text (elim raw [ none ↦ "testnet" | some s ↦ s ]) in
    if value == "testnet" || value == "mainnet" then ok value else err bad_network

abbrev pub default_max_response_bytes : ℕ
default_max_response_bytes = 262144

unfoldable pub parse_max_response_bytes : Option String → Result ConfigError ℕ
parse_max_response_bytes raw = elim (trimmed raw) [
  | none ↦ ok default_max_response_bytes
  | some text ↦
      if not (all_digits (codes text))
      then err bad_max_bytes
      else if leb (big_int (codes text)) 0
      then err zero_max_bytes
      else ok (big_int (codes text))
]

-- The variables that are read, and what a file holds.
pub record Environment : Type 0 where
  pub secret : Option String
  pub secret_file : Option String
  pub network : Option String
  pub assets : Option String
  pub rpc_url : Option String
  pub max_response_bytes : Option String
  pub wallet : Option String
  pub policies : Option String
  pub read_file : String → Option String

-- The configuration. The secret is a field like the others.
pub record LoadedConfig : Type 0 where
  pub network : String
  pub caip2 : String
  pub rpc_url : Option String
  pub ceilings : Amounts
  pub allowed_assets : List String
  pub max_response_bytes : ℕ
  pub wallet_address : Option String
  pub policies : List String
  pub secret : String

abbrev pub caip2_by_network : String → String
caip2_by_network network = if network == "testnet" then "stellar:testnet" else "stellar:pubnet"

unfoldable pub required_text : Option String → Result ConfigError String
required_text raw = elim (trimmed raw) [ none ↦ err required | some text ↦ ok text ]

-- The two sources of the secret.
unfoldable pub secret_text : Environment → Option String → Option String → Result ConfigError String
secret_text env none none = err no_secret
secret_text env none (some inline) = ok inline
secret_text env (some file) (some inline) = err both_secrets
secret_text env (some file) none = elim (env.read_file file) [
  | none ↦ err unreadable_secret
  | some text ↦ ok (trim_text text)
]

module _ (is_valid_secret is_valid_contract : String → Bool) where
  unfoldable pub read_secret : Environment → Result ConfigError String
  read_secret env = do
    secret ← secret_text env (trimmed env.secret_file) (trimmed env.secret)
    if not (is_valid_secret secret) then err invalid_secret else ok secret

  abbrev pub bad_wallet_address : Option String → Bool
  bad_wallet_address none = false
  bad_wallet_address (some w) = not (is_valid_contract w)

  abbrev pub is_missing : Option String → Bool
  is_missing none = true
  is_missing (some w) = false

  -- What `loadConfig` builds of what it has read.
  abbrev pub config_of : Environment → String → String → Amounts → ℕ → List String → LoadedConfig
  config_of env secret network ceilings max_response_bytes policies = record {
    network = network;
    caip2 = caip2_by_network network;
    rpc_url = trimmed env.rpc_url;
    ceilings = ceilings;
    allowed_assets = map (λ (e : String × ℤ). e.0) ceilings;
    max_response_bytes = max_response_bytes;
    wallet_address = trimmed env.wallet;
    policies = policies;
    secret = secret;
  }

  unfoldable pub load_config : Environment → Result ConfigError LoadedConfig
  load_config env = do
    secret ← read_secret env
    network ← parse_network env.network
    raw_assets ← required_text env.assets
    ceilings ← parse_assets is_valid_contract raw_assets
    max_response_bytes ← parse_max_response_bytes env.max_response_bytes
    throw_if (bad_wallet_address (trimmed env.wallet)) bad_wallet
    policies ← parse_policies is_valid_contract env.policies
    throw_if (not (is_empty policies) && is_missing (trimmed env.wallet)) policies_without_wallet
    ok (config_of env secret network ceilings max_response_bytes policies)
