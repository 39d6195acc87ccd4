-- ===== src/Pgwire.antt =====
-- The Postgres wire server: may_pgwire/src/handler.rs, and the repository of server.rs that refuses
-- everybody. The crate pgwire reads and writes the messages.
pub mod Startup
pub mod Query
pub mod Server
-- severity, code and message
use Prim.Native.String.{String}
use maysemantic.Auth.{UserRepository, user_not_found, invalid_credentials}
use maysemantic.Prelude.{str, Text, ok, err, [], ◌∷◌, List}

pub record ErrorInfo : Type 0 where
  pub severity : Text
  pub code : Text
  pub message : Text

unfoldable pub error_info : String → String → Text → ErrorInfo
unfolding str
error_info severity code message = record {
  severity = str severity;
  code = str code;
  message = message;
}

-- `DenyAllRepository`, which has no store
unfoldable pub deny_all_repository : UserRepository (Unit {0})
deny_all_repository = record {
  find_by_username = λ username s. err invalid_credentials;
  create = λ username password_hash role s. (err invalid_credentials, s);
  list = λ page per_page s. err user_not_found;
  deactivate = λ id s. (err user_not_found, s);
  update = λ id role password_hash s. (err user_not_found, s);
}

-- the server's parameters, of which the message of `finish_authentication` tells the client
unfoldable pub server_parameters : List (Text × Text)
unfolding str
server_parameters =
    (str "server_version", str "14.0")
    ∷ (str "server_encoding", str "UTF8")
    ∷ (str "client_encoding", str "UTF8")
    ∷ (str "DateStyle", str "ISO, MDY")
    ∷ (str "integer_datetimes", str "on")
    ∷ []
