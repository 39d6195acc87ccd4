-- ===== src/Tests/Vaults.antt =====
-- The secrets, each property at one input.
use maysemantic.Prelude.{
  ◌≤◌, upsert, arith, insert, ◌≡◌, Text, ℕ, lookup, none, some, ok, [], ◌∷◌, ◌==◌, refl, true, str,
}
use maysemantic.Secrets.{build_dwh_secret, parse_kind, service_account_key}
use maysemantic.Secrets.Config.Validated.{bootstrap-validate, Asks}
use maysemantic.Secrets.Config.{
  bootstrap_secrets_provider, validate_config, MaySecretsConfig, validate, VaultConfig, managed,
  by_token, content, vault_provider, token,
}
use maysemantic.Secrets.Vault.{get_token, VaultState, Vault, response, new, get_secret}
use maysemantic.Secrets.Vault.Fresh.{get_secret-IsFresh, IsFresh, call, start}
use maysemantic.Json.{get, as_object, as_str, object, field, string, end}

abbrev vault_config : MaySecretsConfig
vault_config = record {
  mode = managed;
  vault_address = none;
  vault_mount = str "secret";
  auth_method = by_token;
  token = some (b't' ∷ []);
  role_id = none;
  secret_id = none;
  cache_ttl_secs = 300;
}

bootstrap-validate_example :
    (vault : VaultConfig) × (bootstrap_secrets_provider
        (λ y. some vault_config)
        (λ u. true)
        (content [])
      ≡ ok (vault_provider vault))
    × Asks vault_config by_token vault.auth
    × (30 ≤ vault.cache_ttl_secs)
unfolding validate validate_config
bootstrap-validate_example =
    bootstrap-validate (λ y. some vault_config) (λ u. true) [] vault_config refl refl

-- A Vault whose every secret is the key `k`.
abbrev key_vault : Vault
key_vault = record {
  login = λ now url r s. response 200 [] (some (b't' ∷ []));
  read = λ now url t. response 200 [] (
      some (
        object (
          field (str "type") (string (str "service_account_key"))
            (field (str "json") (string (b'k' ∷ [])) end))));
}

abbrev config : VaultConfig
config = record {
  address = str "http://may-vault:8200";
  mount = str "secret";
  auth = token (b't' ∷ []);
  cache_ttl_secs = 300;
  token_ttl_secs = 3600;
}

abbrev warehouse : Text
warehouse = b'w' ∷ []

abbrev cached : VaultState
cached = record {
  cache = (warehouse, (service_account_key (b'k' ∷ []), 100)) ∷ [];
  approle_token = none;
}

first_read :
    get_secret key_vault config 100 warehouse new ≡ (ok (service_account_key (b'k' ∷ [])), cached)
unfolding get_secret new lookup get_token insert upsert parse_kind build_dwh_secret get as_object
    as_str str ◌==◌
first_read = refl

second_read :
    get_secret key_vault config 350 warehouse (get_secret key_vault config 100 warehouse new).1
    ≡ (ok (service_account_key (b'k' ∷ [])), cached)
unfolding get_secret lookup ◌==◌
second_read = rw first_read refl

get_secret-IsFresh_example :
    (ts : ℕ) × IsFresh key_vault config 350 warehouse (service_account_key (b'k' ∷ [])) ts
get_secret-IsFresh_example =
    get_secret-IsFresh key_vault config 100 350 warehouse
      (get_secret key_vault config 100 warehouse new).1 cached (service_account_key (b'k' ∷ []))
      (call 100 warehouse (omega arith) (start 0)) (omega arith) second_read
