-- ===== src/Rest.antt =====
-- The REST server: may_rest/src/error.rs, the extractors of middleware/auth.rs and json.rs, and
-- `AppState` of lib.rs. A status is its number; axum has parsed the path and the query string.
use Prim.Native.String.{String}
use maysemantic.Auth.{User}
use maysemantic.Auth.Token.{verify-issue, issue, verify, Claims, TokenService, Jwt}
use maysemantic.Prelude.{
  arith, strip_prefix-append, leb, if◌then◌else◌, ◌++◌, ok, ◌≡◌, ◌^◌, ◌<◌, none, ◌+◌, strip_prefix,
  err, some, map_err, Option, ℕ, str, Text, Result,
}
pub mod Login
pub mod Users
pub mod Query
pub mod Server

pub record ApiError : Type 0 where
  pub status : ℕ
  pub message : Text

unfoldable pub api_error : ℕ → String → ApiError
unfolding str
api_error status message = record { status = status; message = str message }

-- Of `AppState`, what stays as it is: the repository and the models are arguments.
pub record AppState : Type 0 where
  pub token_service : TokenService
  pub dialect_kind : Text

-- `JsonRejection` as `reject` tells it apart; `BytesRejection` has a status of its own.
pub data JsonRejection : Type 0 where
  json_data_error json_syntax_error missing_json_content_type : Text → JsonRejection
  bytes_rejection : ℕ → Text → JsonRejection

unfoldable pub reject : JsonRejection → ApiError
reject (json_data_error body_text) = record { status = 400; message = body_text }
reject (missing_json_content_type body_text) = record { status = 400; message = body_text }
reject (json_syntax_error body_text) = record { status = 400; message = body_text }
reject (bytes_rejection status body_text) = record { status = status; message = body_text }

-- `ValidatedJson::from_request`, from what axum's `Json` gives
unfoldable pub from_request {ℓ} : {T : Type ℓ} → Result JsonRejection T → Result ApiError T
unfolding reject
from_request body = map_err reject body

-- what follows `Bearer ` in the Authorization header, a header that is no text counting as none
unfoldable pub bearer_token : Option Text → Option Text
unfolding str
bearer_token none = none
bearer_token (some value) = strip_prefix (str "Bearer ") value

module _ ⦃J : Jwt⦄ where
  check_token : AppState → ℕ → Option Text → Result ApiError Claims
  check_token state now none = err (api_error 401 "missing or malformed authorization header")
  check_token state now (some token) =
      map_err (λ _. api_error 401 "invalid or expired token") (verify state.token_service now token)

  -- `AuthClaims::from_request_parts`
  unfoldable pub from_request_parts : AppState → ℕ → Option Text → Result ApiError Claims
  unfolding check_token bearer_token
  from_request_parts state now authorization = check_token state now (bearer_token authorization)

  -- The header made of a token that the service issued names its user: it is accepted exactly while
  -- the token has not expired, with the role that the user had then.
  pub from_request_parts-issue :
      (show_uuid : ℕ → Text) (state : AppState) (issued now : ℕ) (user : User) (token : Text)
      → issued + state.token_service.expiry_secs < 2 ^ 64
      → issue show_uuid state.token_service issued user ≡ ok token
      → from_request_parts state now (some (str "Bearer " ++ token)) ≡ (
          if leb now (issued + state.token_service.expiry_secs)
          then ok (record {
            sub = show_uuid user.id;
            role = user.role;
            exp = issued + state.token_service.expiry_secs;
          })
          else err (api_error 401 "invalid or expired token"))
  unfolding from_request_parts
  from_request_parts-issue show_uuid state issued now user token fits e =
      let checked = verify-issue show_uuid state.token_service issued now user token fits e in
      rw (strip_prefix-append (str "Bearer ") token) (ground (arith, checked))
