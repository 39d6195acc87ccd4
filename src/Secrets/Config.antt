-- ===== src/Secrets/Config.antt =====
-- may_secrets/src/config.rs and bootstrap.rs: the configuration, its validation, and the provider that
-- it leads to. The YAML parser and the test of an URL are parameters; the HTTP client can be built.

pub mod Validated
use maysemantic.Secrets.{invalid_config, SecretsError}
use maysemantic.Prelude.{
  Bool-cases, false, >>=-eq-ok, map_err, get_or, not, arith, ok_or, is_some, ltb, ◌&&◌,
  Option-cases, if◌then◌else◌, ◌≤◌, ◌≡◌, Result, ℕ, str, Bool, none, some, ok, err, inl, inr, refl,
  ◌>>=◌, ◌>>◌, Text, Option,
}

pub data SecretsMode : Type 0 where
  managed byov : SecretsMode

pub data VaultAuthMethod : Type 0 where
  by_token by_app_role : VaultAuthMethod

pub record MaySecretsConfig : Type 0 where
  pub mode : SecretsMode
  pub vault_address : Option Text
  pub vault_mount : Text
  pub auth_method : VaultAuthMethod
  pub token : Option Text
  pub role_id : Option Text
  pub secret_id : Option Text
  pub cache_ttl_secs : ℕ

pub data ValidationError : Type 0 where
  vault_address_required_for_byov token_required_for_token_auth : ValidationError
  role_id_required_for_approle_auth secret_id_required_for_approle_auth : ValidationError
  url range : ValidationError

is_byov : SecretsMode → Bool
is_byov managed = Bool.false
is_byov byov = Bool.true

check_auth : MaySecretsConfig → VaultAuthMethod → Result ValidationError (Unit {0})
check_auth config by_token =
    if is_some config.token then ok tt else err token_required_for_token_auth
check_auth config by_app_role =
    if is_some config.role_id
    then if is_some config.secret_id then ok tt else err secret_id_required_for_approle_auth
    else err role_id_required_for_approle_auth

unfoldable pub validate_config : MaySecretsConfig → Result ValidationError (Unit {0})
unfolding is_byov check_auth
validate_config config =
    if is_byov config.mode && not (is_some config.vault_address)
    then err vault_address_required_for_byov
    else check_auth config config.auth_method

-- `#[validate(url)]`, which a missing field passes
check_url : (Text → Bool) → Option Text → Result ValidationError (Unit {0})
check_url is_url none = ok tt
check_url is_url (some address) = if is_url address then ok tt else err url

-- `#[validate(range(min = 30))]`
check_ttl : ℕ → Result ValidationError (Unit {0})
check_ttl secs = if ltb secs 30 then err range else ok tt

-- `config.validate()`: the derived checks of the fields, then the schema's function. Of several
-- errors, which the source gathers, this is the first.
unfoldable pub validate : (Text → Bool) → MaySecretsConfig → Result ValidationError (Unit {0})
unfolding check_url check_ttl
validate is_url config = do
  check_url is_url config.vault_address
  check_ttl config.cache_ttl_secs
  validate_config config

pub data VaultAuth : Type 0 where
  token : Text → VaultAuth
  -- the role's id and the secret's
  app_role : Text → Text → VaultAuth

pub record VaultConfig : Type 0 where
  pub address : Text
  pub mount : Text
  pub auth : VaultAuth
  pub cache_ttl_secs : ℕ
  pub token_ttl_secs : ℕ

pub record VaultConfigBuilder : Type 0 where
  pub address : Option Text
  pub mount : Option Text
  pub auth : Option VaultAuth
  pub cache_ttl_secs : Option ℕ
  pub token_ttl_secs : Option ℕ

unfoldable pub build : VaultConfigBuilder → Result SecretsError VaultConfig
unfolding str
build b = do
  address ← ok_or b.address (invalid_config (str "Missing address"))
  auth ← ok_or b.auth (invalid_config (str "Missing auth"))
  ok (record {
    address = address;
    mount = get_or (str "secret") b.mount;
    auth = auth;
    cache_ttl_secs = get_or 300 b.cache_ttl_secs;
    token_ttl_secs = get_or 3600 b.token_ttl_secs;
  })

unfoldable pub managed_vault_address : Text
unfolding str
managed_vault_address = str "http://may-vault:8200"

address_of : MaySecretsConfig → SecretsMode → Result SecretsError Text
unfolding managed_vault_address str
address_of config managed = ok managed_vault_address
address_of config byov =
    ok_or config.vault_address (invalid_config (str "Missing vault_address for Byov mode"))

auth_of : MaySecretsConfig → VaultAuthMethod → Result SecretsError VaultAuth
unfolding str
auth_of config by_token = do
  t ← ok_or config.token (invalid_config (str "Missing token"))
  ok (token t)
auth_of config by_app_role = do
  role_id ← ok_or config.role_id (invalid_config (str "Missing role_id"))
  secret_id ← ok_or config.secret_id (invalid_config (str "Missing secret_id"))
  ok (app_role role_id secret_id)

-- reading the configuration file
pub data ConfigFile : Type 0 where
  not_found unreadable : ConfigFile
  content : Text → ConfigFile

pub data Provider : Type 0 where
  env_provider : Provider
  vault_provider : VaultConfig → Provider

-- a configuration that is valid, to its provider
unfoldable pub vault_config : MaySecretsConfig → Result SecretsError VaultConfig
unfolding address_of auth_of build
vault_config config = do
  address ← address_of config config.mode
  auth ← auth_of config config.auth_method
  build (record {
    address = some address;
    mount = some config.vault_mount;
    auth = some auth;
    cache_ttl_secs = some config.cache_ttl_secs;
    token_ttl_secs = none;
  })

unfoldable pub bootstrap_secrets_provider :
    (Text → Option MaySecretsConfig) → (Text → Bool) → ConfigFile → Result SecretsError Provider
unfolding str
bootstrap_secrets_provider parse is_url not_found = ok env_provider
bootstrap_secrets_provider parse is_url unreadable =
    err (invalid_config (str "Failed to read secrets config: "))
bootstrap_secrets_provider parse is_url (content yaml) = do
  config ← ok_or (parse yaml) (invalid_config (str "Failed to parse secrets config: "))
  map_err (λ _. invalid_config (str "Invalid secrets configuration: ")) (validate is_url config)
  vault ← vault_config config
  ok (vault_provider vault)
