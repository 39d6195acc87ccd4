-- ===== src/Pgwire/Startup.antt =====
-- `PgWireAuthenticator::on_startup`, may_pgwire/src/handler.rs. What the handler has the crate pgwire do
-- is a list of actions, so that nothing is said of how it does it; `user` is the metadata's entry of that
-- name, and a text of the bytes of a raw message is `from_utf8`.
pub mod Sessions
use maysemantic.Pgwire.{error_info, ErrorInfo}
use maysemantic.Auth.{User, UserRepository, AuthError}
use maysemantic.Auth.Password.{verify_password, Bcrypt}
use maysemantic.Prelude.{
  ◌++◌, nat_eq, ok_or, if◌then◌else◌, Option, str, Text, Result, ℕ, Bool, ok, err, [], ◌∷◌, List,
  some, none, ◌>>=◌,
}

-- `PasswordMessageFamily`
pub data PasswordMessage : Type 0 where
  password : Text → PasswordMessage
  raw : List ℕ → PasswordMessage
  other_family : PasswordMessage

-- `PgWireFrontendMessage`
pub data FrontendMessage : Type 0 where
  ssl_request : FrontendMessage
  startup : List (Text × Text) → FrontendMessage
  password_message_family : PasswordMessage → FrontendMessage
  other_message : FrontendMessage

pub data Action : Type 0 where
  refuse_ssl : Action
  save_startup_parameters : List (Text × Text) → Action
  set_authentication_in_progress : Action
  ask_cleartext_password : Action
  finish_authentication : Action

unfoldable pub invalid_password : Text → ErrorInfo
unfolding str
invalid_password message = error_info "FATAL" "28P01" message

-- the bytes less a last byte that is 0
strip_zero : List ℕ → List ℕ
strip_zero [] = []
strip_zero (b ∷ []) = if nat_eq b 0 then [] else b ∷ []
strip_zero (b ∷ c ∷ bs) = b ∷ strip_zero (c ∷ bs)

module _ (from_utf8 : List ℕ → Option Text) where
  unfoldable pub password_of : PasswordMessage → Result ErrorInfo Text
  unfolding strip_zero str
  password_of (password p) = ok p
  password_of (raw bytes) =
      ok_or (from_utf8 (strip_zero bytes)) (invalid_password (str "invalid utf8 in password"))
  password_of other_family = err (invalid_password (str "unsupported password message type"))

rejected : Text → ErrorInfo
rejected user =
    invalid_password (str "password authentication failed for user \"" ++ (user ++ str "\""))

-- `matches!(verify_task, Ok(Ok(true)))`
is_verified : Result AuthError Bool → Bool
is_verified (ok b) = b
is_verified (err e) = Bool.false

module _ ⦃B : Bcrypt⦄ where
  -- `is_valid`
  unfoldable pub is_valid : Text → Result AuthError User → Bool
  unfolding is_verified
  is_valid p (ok user) = is_verified (verify_password p user.password_hash)
  is_valid p (err e) = Bool.false

module _ ⦃B : Bcrypt⦄ {S : Type 0} ⦃R : UserRepository S⦄ (from_utf8 : List ℕ → Option Text)
    (store : S) where
  authenticate : Option Text → Text → Result ErrorInfo (List Action)
  authenticate none p = err (rejected [])
  authenticate (some user_name) p =
      if is_valid p (R.find_by_username user_name store)
      then ok (finish_authentication ∷ [])
      else err (rejected user_name)

  unfoldable pub on_startup : Option Text → FrontendMessage → Result ErrorInfo (List Action)
  unfolding authenticate rejected str
  on_startup user ssl_request = ok (refuse_ssl ∷ [])
  on_startup user (startup parameters) = ok (
      save_startup_parameters parameters
      ∷ set_authentication_in_progress
      ∷ ask_cleartext_password
      ∷ [])
  on_startup user (password_message_family m) = do p ← password_of from_utf8 m; authenticate user p
  on_startup user other_message = ok []
