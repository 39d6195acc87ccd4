-- ===== src/Secrets/Env.antt =====
-- `EnvSecretsProvider`, may_secrets/src/providers/env.rs, over the variables of the environment. The
-- name of a secret is ASCII, as `to_uppercase` is modelled.
use maysemantic.Secrets.{as_optional, text_at, as_string, build_dwh_secret, of_key_pair}
use maysemantic.Prelude.{ok_or-ok, refl, ℕ, ◌∙◌, ◌==◌, >>=-eq-ok, ◌≡◌, none, some}
use Prim.Native.String.{String}
use maysemantic.Json.{as_u64, as_str, get, end, field, string}
use maysemantic.Secrets.{
  of_service_account_key, of_username_password, key_pair, service_account_key, username_password,
  invalid_config, max_port, parse_kind, missing_variable, DwhSecret, SecretsError, Fields,
  SecretKind,
}
use maysemantic.Prelude.{
  ok, parse_unsigned, ◌>>=◌, to_ascii_upper, ok_or, map, [], Result, replace_char, ◌∷◌, Option,
  ◌++◌, List, Text, str,
}

unfoldable pub require_env : (Text → Option Text) → Text → Result SecretsError Text
require_env env var_name = ok_or (env var_name) (missing_variable var_name)

-- `MAY_SECRET_` and the name in upper case, with `_` for `-`
unfoldable pub prefix_of : Text → Text
unfolding str
prefix_of name = str "MAY_SECRET_" ++ replace_char b'-' (str "_") (map to_ascii_upper name)

module _ (env : Text → Option Text) (prefix : Text) where
  -- `Self::require_env(&format!("{prefix}_…"))?`
  variable : String → Result SecretsError Text
  unfolding require_env str
  variable suffix = require_env env (prefix ++ str suffix)

  of_kind : SecretKind → Result SecretsError DwhSecret
  unfolding variable str
  of_kind of_username_password = do
    host ← variable "_HOST"
    port_str ← variable "_PORT"
    port ←
        ok_or (parse_unsigned max_port port_str)
          (invalid_config (str "Invalid port value: " ++ port_str))
    database ← variable "_DATABASE"
    username ← variable "_USERNAME"
    password ← variable "_PASSWORD"
    ok (username_password host port database username password)
  of_kind of_service_account_key = do json ← variable "_JSON"; ok (service_account_key json)
  of_kind of_key_pair = do
    account ← variable "_ACCOUNT"
    username ← variable "_USERNAME"
    private_key ← variable "_PRIVATE_KEY"
    ok (key_pair account username private_key (env (prefix ++ str "_PASSPHRASE")))

unfoldable pub get_secret : (Text → Option Text) → Text → Result SecretsError DwhSecret
unfolding of_kind
get_secret env name = do
  secret_type ← require_env env (prefix_of name ++ str "_TYPE")
  kind ← parse_kind secret_type
  of_kind env (prefix_of name) kind

-- The fields that a secret of a kind has in Vault, each with the variable that holds it here.
abbrev pub variables : SecretKind → List (Text × Text)
variables of_username_password =
    (str "host", str "_HOST")
    ∷ (str "port", str "_PORT")
    ∷ (str "database", str "_DATABASE")
    ∷ (str "username", str "_USERNAME")
    ∷ (str "password", str "_PASSWORD")
    ∷ []
variables of_service_account_key = (str "json", str "_JSON") ∷ []
variables of_key_pair =
    (str "account", str "_ACCOUNT")
    ∷ (str "username", str "_USERNAME")
    ∷ (str "private_key", str "_PRIVATE_KEY")
    ∷ (str "passphrase", str "_PASSPHRASE")
    ∷ []

-- a field for a variable that is set
abbrev pub with_field : Text → Option Text → Fields → Fields
with_field key none fields = fields
with_field key (some s) fields = field key (string s) fields

abbrev pub object_of : (Text → Option Text) → Text → List (Text × Text) → Fields
object_of env prefix [] = end
object_of env prefix ((key, suffix) ∷ rest) =
    with_field key (env (prefix ++ suffix)) (object_of env prefix rest)

module _ (env : Text → Option Text) (prefix : Text) where
  service_account_agrees :
      (s : DwhSecret)
      → of_kind env prefix of_service_account_key ≡ ok s
      → build_dwh_secret of_service_account_key
          (object_of env prefix (variables of_service_account_key))
        ≡ ok s
  unfolding of_kind variable require_env build_dwh_secret as_string get as_str text_at str ◌==◌
  service_account_agrees s h =
      let (json, e, h₁) = >>=-eq-ok (variable env prefix "_JSON") _ h in
      let set = ok_or-ok (env (prefix ++ str "_JSON")) _ e in rw set h₁

  username_password_built :
      (host port_str database username password : Text) (port : ℕ)
      → env (prefix ++ str "_HOST") ≡ some host
      → env (prefix ++ str "_PORT") ≡ some port_str
      → parse_unsigned max_port port_str ≡ some port
      → env (prefix ++ str "_DATABASE") ≡ some database
      → env (prefix ++ str "_USERNAME") ≡ some username
      → env (prefix ++ str "_PASSWORD") ≡ some password
      → build_dwh_secret of_username_password
          (object_of env prefix (variables of_username_password))
        ≡ ok (username_password host port database username password)
  unfolding build_dwh_secret as_string get as_str as_u64 text_at str ◌==◌
  username_password_built host port_str database username password port h p n d u w =
      rw (h, p, d, u, w, n) refl

  username_password_agrees :
      (s : DwhSecret)
      → of_kind env prefix of_username_password ≡ ok s
      → build_dwh_secret of_username_password
          (object_of env prefix (variables of_username_password))
        ≡ ok s
  unfolding of_kind variable require_env
  username_password_agrees s h =
      let (host, e₁, h₁) = >>=-eq-ok (variable env prefix "_HOST") _ h in
      let (port_str, e₂, h₂) = >>=-eq-ok (variable env prefix "_PORT") _ h₁ in
      let (port, e₃, h₃) = >>=-eq-ok (ok_or (parse_unsigned max_port port_str) _) _ h₂ in
      let (database, e₄, h₄) = >>=-eq-ok (variable env prefix "_DATABASE") _ h₃ in
      let (username, e₅, h₅) = >>=-eq-ok (variable env prefix "_USERNAME") _ h₄ in
      let (password, e₆, h₆) = >>=-eq-ok (variable env prefix "_PASSWORD") _ h₅ in
      username_password_built host port_str database username password port
        (ok_or-ok (env (prefix ++ str "_HOST")) _ e₁) (ok_or-ok (env (prefix ++ str "_PORT")) _ e₂)
        (ok_or-ok (parse_unsigned max_port port_str) _ e₃)
        (ok_or-ok (env (prefix ++ str "_DATABASE")) _ e₄)
        (ok_or-ok (env (prefix ++ str "_USERNAME")) _ e₅)
        (ok_or-ok (env (prefix ++ str "_PASSWORD")) _ e₆)
      ∙ h₆

  key_pair_built :
      (account username private_key : Text) (passphrase : Option Text)
      → env (prefix ++ str "_ACCOUNT") ≡ some account
      → env (prefix ++ str "_USERNAME") ≡ some username
      → env (prefix ++ str "_PRIVATE_KEY") ≡ some private_key
      → env (prefix ++ str "_PASSPHRASE") ≡ passphrase
      → build_dwh_secret of_key_pair (object_of env prefix (variables of_key_pair))
        ≡ ok (key_pair account username private_key passphrase)
  unfolding build_dwh_secret as_string get as_str text_at str ◌==◌ as_optional
  key_pair_built account username private_key none a u k p = rw (a, u, k, p) refl
  key_pair_built account username private_key (some w) a u k p = rw (a, u, k, p) refl

  key_pair_agrees :
      (s : DwhSecret)
      → of_kind env prefix of_key_pair ≡ ok s
      → build_dwh_secret of_key_pair (object_of env prefix (variables of_key_pair)) ≡ ok s
  unfolding of_kind variable require_env
  key_pair_agrees s h =
      let (account, e₁, h₁) = >>=-eq-ok (variable env prefix "_ACCOUNT") _ h in
      let (username, e₂, h₂) = >>=-eq-ok (variable env prefix "_USERNAME") _ h₁ in
      let (private_key, e₃, h₃) = >>=-eq-ok (variable env prefix "_PRIVATE_KEY") _ h₂ in
      key_pair_built account username private_key (env (prefix ++ str "_PASSPHRASE"))
        (ok_or-ok (env (prefix ++ str "_ACCOUNT")) _ e₁)
        (ok_or-ok (env (prefix ++ str "_USERNAME")) _ e₂)
        (ok_or-ok (env (prefix ++ str "_PRIVATE_KEY")) _ e₃) refl
      ∙ h₃

-- A secret that the environment gives is the one that Vault gives for an object with the same fields
-- as strings, the port included: the two providers read a secret alike.
pub get_secret-build_dwh_secret :
    (env : Text → Option Text) (name : Text) (s : DwhSecret)
    → get_secret env name ≡ ok s
    → (kind : SecretKind) × (build_dwh_secret kind (object_of env (prefix_of name) (variables kind))
        ≡ ok s)
unfolding get_secret
get_secret-build_dwh_secret env name s h =
    let (type_, _, h₁) = >>=-eq-ok (require_env env (prefix_of name ++ str "_TYPE")) _ h in
    let (kind, _, h₂) = >>=-eq-ok (parse_kind type_) _ h₁ in (kind, agrees kind h₂)
  where
    agrees :
        (kind : SecretKind)
        → of_kind env (prefix_of name) kind ≡ ok s
        → build_dwh_secret kind (object_of env (prefix_of name) (variables kind)) ≡ ok s
    agrees of_username_password g = username_password_agrees env (prefix_of name) s g
    agrees of_service_account_key g = service_account_agrees env (prefix_of name) s g
    agrees of_key_pair g = key_pair_agrees env (prefix_of name) s g
