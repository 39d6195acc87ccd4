-- ===== src/Secrets/Vault.antt =====
-- `VaultSecretsProvider`, may_secrets/src/providers/vault.rs. The server is the parameter `Vault`, asked
-- at a time; a call begins and ends at one time, in seconds, and calls follow one another.
use maysemantic.Secrets.{
  build_dwh_secret, parse_kind, as_string, secret_not_found, vault_error, invalid_config,
  SecretsError, DwhSecret,
}
use maysemantic.Json.{as_object, Value}
use maysemantic.Secrets.Config.{app_role, token, VaultConfig, VaultAuth}
use maysemantic.Json.{get}
use maysemantic.Prelude.{
  text_key, ok_or, if◌then◌else◌, insert, err, ◌&&◌, lookup, ok, ◌-◌, some, ◌>>=◌, leb, ltb, Option,
  nat_eq, none, Bool, ℕ, Result, ◌++◌, [], str, Text, List,
}
pub mod Fresh
pub mod Refused

-- what `send` gives: an error of the transport, or a status with a body, read as a text or as the JSON
-- that is wanted
pub data Answer {ℓ} (A : Type ℓ) : Type ℓ where
  send_error : Answer A
  response : ℕ → Text → Option A → Answer A

pub record Vault : Type 0 where
  -- the time, the URL, the role's id and the secret's; the JSON is `auth.client_token`
  pub login : ℕ → Text → Text → Text → Answer Text
  -- the time, the URL and the token; the JSON is `data.data`
  pub read : ℕ → Text → Text → Answer Value

pub record VaultState : Type 0 where
  -- with the time of the reading
  pub cache : List (Text × (DwhSecret × ℕ))
  pub approle_token : Option (Text × ℕ)

-- `VaultSecretsProvider::new`
unfoldable pub new : VaultState
new = record { cache = []; approle_token = none }

-- `ts.elapsed() < Duration::from_secs(ttl)`
is_live : ℕ → ℕ → ℕ → Bool
is_live ttl now ts = ltb (now - ts) ttl

is_success : ℕ → Bool
is_success status = leb 200 status && leb status 299

live_token : ℕ → ℕ → Option (Text × ℕ) → Option Text
live_token ttl now none = none
live_token ttl now (some (t, ts)) = if is_live ttl now ts then some t else none

is_app_role : VaultAuth → Bool
is_app_role (token t) = Bool.false
is_app_role (app_role r s) = Bool.true

-- the answer to a login, up to the client token
login_answer : Answer Text → Result SecretsError Text
login_answer send_error = err (invalid_config (str "Failed to authenticate with AppRole: "))
login_answer (response status body json) =
    if is_success status
    then ok_or json (invalid_config (str "Failed to parse AppRole response: "))
    else err (vault_error status body)

pub keep_token : ℕ → VaultState → Result SecretsError Text → Result SecretsError Text × VaultState
keep_token now s (err e) = (err e, s)
keep_token now s (ok t) = (ok t, record s { approle_token = some (t, now) })

-- the secret of an object: its kind from `type`, its data from the object itself
secret_of : Value → Result SecretsError DwhSecret
secret_of value = do
  fields ← ok_or (as_object value) (invalid_config (str "Vault data field is not a JSON object"))
  type_val ←
      ok_or (as_string (get (str "type") fields))
        (invalid_config (str "Missing 'type' field in Vault secret"))
  kind ← parse_kind type_val
  build_dwh_secret kind fields

module _ (V : Vault) (config : VaultConfig) where
  pub login : ℕ → Text → Text → Result SecretsError Text
  login now role_id secret_id =
      login_answer (V.login now (config.address ++ str "/v1/auth/approle/login") role_id secret_id)

  reuse_or_login :
      ℕ → Text → Text → VaultState → Option Text → Result SecretsError Text × VaultState
  unfolding login keep_token
  reuse_or_login now role_id secret_id s (some t) = (ok t, s)
  reuse_or_login now role_id secret_id s none = keep_token now s (login now role_id secret_id)

  token_by : ℕ → VaultState → VaultAuth → Result SecretsError Text × VaultState
  unfolding reuse_or_login live_token login_answer is_live is_success str
  token_by now s (token t) = (ok t, s)
  token_by now s (app_role role_id secret_id) =
      reuse_or_login now role_id secret_id s (live_token config.token_ttl_secs now s.approle_token)

  -- `get_token`; the second look, under the write lock, sees the same state
  unfoldable pub get_token : ℕ → VaultState → Result SecretsError Text × VaultState
  unfolding token_by
  get_token now s = token_by now s config.auth

  -- `{address}/v1/{mount}/data/{name}`
  pub secret_url : Text → Text
  secret_url name = config.address ++ (str "/v1/" ++ (config.mount ++ (str "/data/" ++ name)))

  -- the answer to the reading of a secret
  pub read_answer : Text → Answer Value → Result SecretsError DwhSecret
  unfolding secret_of is_success str
  read_answer name send_error = err (invalid_config (str "Failed to send request to Vault: "))
  read_answer name (response status body json) =
      if is_success status
      then (ok_or json (invalid_config (str "Failed to parse Vault response: ")) >>= secret_of)
      else if nat_eq status 404
      then err (secret_not_found name)
      else err (vault_error status body)

  -- a refusal of the token of an AppRole
  is_refused : Answer Value → Bool
  is_refused send_error = Bool.false
  is_refused (response status body json) = nat_eq status 403 && is_app_role config.auth

  settle :
      ℕ
      → Text
      → Bool
      → Result SecretsError DwhSecret
      → VaultState
      → Result SecretsError DwhSecret × VaultState
  settle now name refused (ok secret) s =
      (ok secret, record s { cache = insert name (secret, now) s.cache })
  settle now name refused (err e) s =
      (err e, if refused then record s { approle_token = none } else s)

  read_with :
      ℕ → Text → Result SecretsError Text × VaultState → Result SecretsError DwhSecret × VaultState
  unfolding settle read_answer is_refused secret_url is_app_role str secret_of is_success as_string
  read_with now name (err e, s) = (err e, s)
  read_with now name (ok t, s) =
      let answer = V.read now (secret_url name) t in
      settle now name (is_refused answer) (read_answer name answer) s

  pub live_secret : ℕ → Option (DwhSecret × ℕ) → Option DwhSecret
  unfolding is_live
  live_secret now none = none
  live_secret now (some (secret, ts)) =
      if is_live config.cache_ttl_secs now ts then some secret else none

  serve : ℕ → Text → Option DwhSecret → VaultState → Result SecretsError DwhSecret × VaultState
  unfolding read_with get_token
  serve now name (some secret) s = (ok secret, s)
  serve now name none s = read_with now name (get_token now s)

  unfoldable pub get_secret : ℕ → Text → VaultState → Result SecretsError DwhSecret × VaultState
  unfolding serve live_secret
  get_secret now name s = serve now name (live_secret now (lookup name s.cache)) s
