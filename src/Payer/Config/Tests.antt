-- ===== src/Payer/Config/Tests.antt =====
-- packages/mcp-x402-payer/src/config.ts: environments that are read.
use vellar_sdk.Prelude.{
  pos, String, Bool, none, some, [], ◌∷◌, ◌==◌, string_eq, ok, err, ◌≡◌, refl, big_int, ◌||◌,
  if◌then◌else◌,
}
use vellar_sdk.Payer.Ledger.{get, put}
use vellar_sdk.Payer.Config.{
  policies_without_wallet, Environment, LoadedConfig, trim_start, trim_end, trim_text, split_at,
  parse_pair, parse_parts, parse_entry, parse_entries, parse_assets, parse_policy, policies_from,
  parse_policies, parse_network, parse_max_response_bytes, required_text, secret_text, read_secret,
  load_config,
}
use vellar_sdk.Payer.Config.Loaded.{IsLoaded, load_config-IsLoaded}

abbrev is_secret : String → Bool
is_secret s = s == "SECRET"

abbrev is_contract : String → Bool
is_contract s = s == "CUSDC" || s == "CWALLET" || s == "CPOLICY"

abbrev environment : Environment
environment = record {
  secret = none;
  secret_file = some " key.txt ";
  network = none;
  assets = some "CUSDC: 1000,";
  rpc_url = none;
  max_response_bytes = some "";
  wallet = some "CWALLET";
  policies = some "CPOLICY";
  read_file = λ name. if name == "key.txt" then some " SECRET " else none;
}

abbrev loaded : LoadedConfig
loaded = record {
  network = "testnet";
  caip2 = "stellar:testnet";
  rpc_url = none;
  ceilings = ("CUSDC", pos 1000) ∷ [];
  allowed_assets = "CUSDC" ∷ [];
  max_response_bytes = 262144;
  wallet_address = some "CWALLET";
  policies = "CPOLICY" ∷ [];
  secret = "SECRET";
}

loads : load_config is_secret is_contract environment ≡ ok loaded
unfolding load_config read_secret secret_text required_text parse_network parse_assets parse_entries
    parse_entry parse_parts parse_pair parse_policies policies_from parse_policy
    parse_max_response_bytes trim_text trim_start trim_end split_at get put big_int
loads = refl

refuses_policies_without_wallet :
    load_config is_secret is_contract (record environment { wallet = none })
    ≡ err policies_without_wallet
unfolding load_config read_secret secret_text required_text parse_network parse_assets parse_entries
    parse_entry parse_parts parse_pair parse_policies policies_from parse_policy
    parse_max_response_bytes trim_text trim_start trim_end split_at get put big_int
refuses_policies_without_wallet = refl

load_config-IsLoaded_example : IsLoaded is_secret is_contract loaded
load_config-IsLoaded_example = load_config-IsLoaded is_secret is_contract environment loaded loads
