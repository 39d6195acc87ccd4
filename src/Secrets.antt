-- ===== src/Secrets.antt =====
-- The secrets of the warehouses: may_secrets/src/error.rs, models/dwh.rs, models/kind.rs and
-- models/data.rs. A message is kept less the text of a foreign error in it.
pub mod Env
pub mod Config
pub mod Vault
use Prim.Native.String.{String}
use maysemantic.Prelude.{
  ok_or, ◌>>=◌, ◌++◌, parse_unsigned, leb, ◌==◌, if◌then◌else◌, Result, Text, ℕ, str, Option, none,
  some, ok, err,
}
use maysemantic.Json
use maysemantic.Json.{as_str, as_u64, Value, as_str, Fields, as_u64, null, string}

pub data SecretsError : Type 0 where
  secret_not_found missing_variable invalid_config : Text → SecretsError
  vault_error : ℕ → Text → SecretsError

pub data DwhSecret : Type 0 where
  -- host, port, database, username, password
  username_password : Text → ℕ → Text → Text → Text → DwhSecret
  service_account_key : Text → DwhSecret
  -- account, username, private key, passphrase
  key_pair : Text → Text → Text → Option Text → DwhSecret

pub data SecretKind : Type 0 where
  of_username_password of_service_account_key of_key_pair : SecretKind

-- `SecretKind::from_str`
unfoldable pub parse_kind : Text → Result SecretsError SecretKind
unfolding str
parse_kind s =
    if s == str "username_password"
    then ok of_username_password
    else if s == str "service_account_key"
    then ok of_service_account_key
    else if s == str "key_pair"
    then ok of_key_pair
    else err (invalid_config (str "Unknown secret type: " ++ s))

-- a field of type `String`
as_string : Option Value → Option Text
as_string none = none
as_string (some value) = as_str value

-- a field of type `Option<String>`
as_optional : Option Value → Option (Option Text)
as_optional none = some none
as_optional (some null) = some none
as_optional (some (string s)) = some (some s)
as_optional (some _) = none

abbrev pub max_port : ℕ
max_port = 65_535

-- `as_u64`, and else `as_str`
read_port : Option ℕ → Option Text → Option ℕ
read_port (some n) s = if leb n max_port then some n else none
read_port none (some s) = parse_unsigned max_port s
read_port none none = none

deserialize_port : Option Value → Option ℕ
unfolding read_port as_u64 as_str
deserialize_port none = none
deserialize_port (some value) = read_port (as_u64 value) (as_str value)

-- `serde_json::from_value` at the three record types, whose failure is `e`
module _ (e : SecretsError) (fields : Fields) where
  text_at : String → Result SecretsError Text
  unfolding str as_string
  text_at key = ok_or (as_string (Json.get (str key) fields)) e

  username_password_data : Result SecretsError DwhSecret
  unfolding text_at deserialize_port
  username_password_data = do
    host ← text_at "host"
    port ← ok_or (deserialize_port (Json.get (str "port") fields)) e
    database ← text_at "database"
    username ← text_at "username"
    password ← text_at "password"
    ok (username_password host port database username password)

  service_account_key_data : Result SecretsError DwhSecret
  unfolding text_at
  service_account_key_data = do json ← text_at "json"; ok (service_account_key json)

  key_pair_data : Result SecretsError DwhSecret
  unfolding text_at as_optional
  key_pair_data = do
    account ← text_at "account"
    username ← text_at "username"
    private_key ← text_at "private_key"
    passphrase ← ok_or (as_optional (Json.get (str "passphrase") fields)) e
    ok (key_pair account username private_key passphrase)

unfoldable pub build_dwh_secret : SecretKind → Fields → Result SecretsError DwhSecret
unfolding username_password_data service_account_key_data key_pair_data str
build_dwh_secret of_username_password fields =
    username_password_data (invalid_config (str "Failed to parse UsernamePassword secret: ")) fields
build_dwh_secret of_service_account_key fields =
    service_account_key_data (invalid_config (str "Failed to parse ServiceAccountKey secret: "))
      fields
build_dwh_secret of_key_pair fields =
    key_pair_data (invalid_config (str "Failed to parse KeyPair secret: ")) fields
