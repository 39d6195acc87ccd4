-- ===== src/Connectors/BigQuery/Token.antt =====
-- The tokens of `BigQueryConnector`, may_connectors/src/dwh/bigquery.rs. gcp_auth is the parameter `Gcp`:
-- an account is read from the key, and asked for a token at a time. The cache is not seeded, as tests do.

pub mod Manager
use maysemantic.Connectors.{connection_failed, ConnectorError}
use Prim.Native.String.{[], String}
use maysemantic.Connectors.Snowflake.Token.{Secrets}
use maysemantic.Secrets.{DwhSecret, service_account_key}
use maysemantic.Prelude.{
  [], ◌∙◌, arith, Option-cases, subst, inl, inr, sym, refl, ◌+◌, ok_or, ltb, map_err, Result,
  if◌then◌else◌, Text, ◌≡◌, str, Option, ℕ, ok, err, some, none, ◌>>=◌, ◌⊎◌,
}

pub record Gcp : Type 0 where
  pub from_json : Text → Option Text
  -- the token and when it expires
  pub token : Text → ℕ → Option (Text × ℕ)

pub record BigQueryState : Type 0 where
  pub auth_manager : Option Text
  pub token_cache : Option (Text × ℕ)

unfoldable pub new : BigQueryState
new = record { auth_manager = none; token_cache = none }

connection_error : String → ConnectorError
connection_error message = connection_failed (str message)

-- `Utc::now() + 60 s < cached.expires_at`
unfoldable pub live_token : ℕ → Option (Text × ℕ) → Option Text
live_token now none = none
live_token now (some (t, expires_at)) = if ltb (now + 60) expires_at then some t else none

keep_fetched : BigQueryState → Option (Text × ℕ) → Result ConnectorError Text × BigQueryState
keep_fetched s none = (err (connection_error "Failed to get oauth token: "), s)
keep_fetched s (some (t, expires_at)) = (ok t, record s { token_cache = some (t, expires_at) })

set_manager : BigQueryState → Text → BigQueryState
set_manager s account = record s { auth_manager = some account }

module _ ⦃G : Gcp⦄ where
  fetch_unless : ℕ → Text → BigQueryState → Option Text → Result ConnectorError Text × BigQueryState
  fetch_unless now account s (some t) = (ok t, s)
  fetch_unless now account s none = keep_fetched s (G.token account now)

  unfoldable pub fetch_or_refresh_token :
      ℕ → Text → BigQueryState → Result ConnectorError Text × BigQueryState
  unfolding fetch_unless keep_fetched connection_error str
  fetch_or_refresh_token now account s = fetch_unless now account s (live_token now s.token_cache)

  -- the account of a secret
  account_of : DwhSecret → Result ConnectorError Text
  account_of (service_account_key json) =
      ok_or (G.from_json json) (connection_error "Failed to parse SA json: ")
  account_of _ = err (connection_error "Expected ServiceAccountKey secret for BigQuery")

  with_account :
      ℕ → BigQueryState → Result ConnectorError Text → Result ConnectorError Text × BigQueryState
  unfolding set_manager
  with_account now s (err e) = (err e, s)
  with_account now s (ok account) = fetch_or_refresh_token now account (set_manager s account)

  with_manager :
      Secrets → Text → ℕ → BigQueryState → Option Text → Result ConnectorError Text × BigQueryState
  unfolding with_account account_of connection_error str
  with_manager secrets secret_name now s (some account) = fetch_or_refresh_token now account s
  with_manager secrets secret_name now s none =
      with_account now s (map_err (λ _. connection_failed []) (secrets secret_name) >>= account_of)

  unless_live :
      Secrets → Text → ℕ → BigQueryState → Option Text → Result ConnectorError Text × BigQueryState
  unfolding with_manager
  unless_live secrets secret_name now s (some t) = (ok t, s)
  unless_live secrets secret_name now s none = with_manager secrets secret_name now s s.auth_manager

  unfoldable pub get_token :
      Secrets → Text → ℕ → BigQueryState → Result ConnectorError Text × BigQueryState
  unfolding unless_live
  get_token secrets secret_name now s =
      unless_live secrets secret_name now s (live_token now s.token_cache)
