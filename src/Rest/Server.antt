-- ===== src/Rest/Server.antt =====
-- What `main` of may_rest/src/main.rs does before it listens: the environment is read, the database is
-- connected and seeded, and the models are loaded. The database is a list of users, `connect` tells whether
-- it answers, and `files` gives the texts under a path.
pub mod Ready
use maysemantic.Prelude.{
  ◌==◌, any, get_or, if◌then◌else◌, to_ascii_lower, none, ok, parse_unsigned, map_err, some, ok_or,
  ◌>>=◌, err, map, Result, [], Bool, Option, ◌∷◌, Text, ℕ, List, str,
}
use maysemantic.Auth.{Outcome, AuthError}
use maysemantic.Auth.Store.{Users, ensure_admin}
use maysemantic.Auth.Password.{Bcrypt, hash_password}
use maysemantic.Auth.Token.{TokenService}
use maysemantic.Auth.Token
use maysemantic.Models.Core.{SemanticModel}
use maysemantic.Models.State.{SemanticState, load_dir}
use maysemantic.Rest.{AppState}
use maysemantic.Secrets.{max_port}

pub data BootError : Type 0 where
  no_database_url unreachable_database invalid_port : BootError
  auth_failed : AuthError → BootError
  unsupported_dialect : Text → BootError

-- what the server listens with
pub record Served (G : Type 0) : Type 0 where
  pub app : AppState
  pub models : SemanticState G
  pub port : ℕ

abbrev pub supported_dialects : List Text
supported_dialects = str "postgres" ∷ str "snowflake" ∷ str "bigquery" ∷ []

unfoldable pub dialect_kind_of : (Text → Option Text) → Result BootError Text
unfolding str
dialect_kind_of env =
    let kind = map to_ascii_lower (get_or (str "postgres") (env (str "MAY_DIALECT"))) in
    if any (λ d. d == kind) supported_dialects then ok kind else err (unsupported_dialect kind)

unfoldable pub port_of : (Text → Option Text) → Result BootError ℕ
unfolding str
port_of env =
    ok_or (parse_unsigned max_port (get_or (str "3000") (env (str "MAY_REST_PORT")))) invalid_port

module _ {G : Type 0} (parse : Text → Option SemanticModel)
    (files : Text → List (Option Text)) where
  -- The models under a path; where they cannot be loaded, or none is given, there are none.
  unfoldable pub models_of : Option Text → SemanticState G
  models_of none = record { models = []; graph_cache = none }
  models_of (some path) =
      (load_dir parse (files path) (record { models = []; graph_cache = none })).1

  -- what follows the seeding
  unfoldable pub settings : (Text → Option Text) → Result BootError (Served G)
  unfolding models_of str
  settings env = do
    token_service ← map_err auth_failed (Token.new env)
    dialect_kind ← dialect_kind_of env
    port ← port_of env
    ok (record {
      app = record { token_service = token_service; dialect_kind = dialect_kind };
      models = models_of (env (str "MAY_MODEL_PATH"));
      port = port;
    })

  after_seed : (Text → Option Text) → Outcome Users (Unit {0}) → Result BootError (Served G) × Users
  after_seed env (err e, users) = (err (auth_failed e), users)
  after_seed env (ok _, users) = (settings env, users)

  connected :
      ⦃B : Bcrypt⦄
      → (Text → Option Text)
      → (Text → Bool)
      → ℕ
      → ℕ
      → Option Text
      → Users
      → Result BootError (Served G) × Users
  unfolding after_seed str
  connected env connect id now none users = (err no_database_url, users)
  connected env connect id now (some url) users =
      if connect url
      then after_seed env (ensure_admin hash_password (env (str "MAY_ADMIN_PASSWORD")) id now users)
      else (err unreachable_database, users)

  -- the uuid and the time are those of the seeding
  unfoldable pub start :
      ⦃B : Bcrypt⦄
      → (Text → Option Text)
      → (Text → Bool)
      → ℕ
      → ℕ
      → Users
      → Result BootError (Served G) × Users
  unfolding connected str
  start env connect id now users = connected env connect id now (env (str "DATABASE_URL")) users
