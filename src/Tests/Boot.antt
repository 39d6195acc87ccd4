-- ===== src/Tests/Boot.antt =====
-- The start of the REST server, at one environment.
use maysemantic.Auth.Password.{hash_password}
use maysemantic.Prelude.{
  is_ascii_digit, to_ascii_lower, read_digits, any, ◌==◌, parse_unsigned, refl, text_key, lookup,
  none, some, List, Option, ◌∷◌, [], true, str, Text,
}
use maysemantic.Rest.Server.{dialect_kind_of, port_of, settings, start, Served}
use maysemantic.Rest.Server.Ready.{IsReady, start-IsReady}
use maysemantic.Auth.Store.{Users, new_row, ensure_admin, is_taken}
use maysemantic.Auth.{admin}
use maysemantic.Auth.Token
use maysemantic.Models.Core.{SemanticModel}
use maysemantic.Tests.Servers.{marked}
use maysemantic.Tests.Fixtures.{shop_model}

abbrev environment : Text → Option Text
environment name = lookup name (
    (str "DATABASE_URL", str "db")
    ∷ (str "MAY_ADMIN_PASSWORD", str "secret")
    ∷ (str "MAY_JWT_SECRET", str "s")
    ∷ (str "MAY_DIALECT", str "BigQuery")
    ∷ [])

abbrev seeded_users : Users
seeded_users = new_row 1 50 (str "admin") (b'h' ∷ str "secret") admin ∷ []

abbrev served : Served (Unit {0})
served = record {
  app = record {
    token_service = record { secret = str "s"; expiry_secs = 3600 };
    dialect_kind = str "bigquery";
  };
  models = record { models = []; graph_cache = none };
  port = 3000;
}

abbrev read_shop_model : Text → Option SemanticModel
read_shop_model yaml = some shop_model

abbrev no_files : Text → List (Option Text)
no_files path = []

start-IsReady_example : IsReady environment served seeded_users
unfolding start str lookup ◌==◌ ensure_admin hash_password settings is_taken Token.new any
    dialect_kind_of to_ascii_lower port_of parse_unsigned read_digits is_ascii_digit
start-IsReady_example =
    start-IsReady read_shop_model no_files environment (λ url. true) 1 50 [] seeded_users served
      refl
