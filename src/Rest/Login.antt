-- ===== src/Rest/Login.antt =====
-- `login`, may_rest/src/routes/auth.rs, over any repository. The task that checks the password
-- does not panic.
use maysemantic.Auth.{AuthError, User, UserRepository}
use maysemantic.Rest.{from_request, issue, JsonRejection, AppState, api_error, Jwt, ApiError}
use maysemantic.Prelude.{
  inr, arith, inl, Bool-cases, ◌>>=◌, refl, if◌then◌else◌, map_err-eq-ok, false, true, err, map_err,
  ◌≡◌, byte_len, ok, ltb, Result, ◌||◌, is_empty, Bool, ℕ, Text,
}
use maysemantic.Auth.Password.{verify_password, Bcrypt}
pub mod Accounts

pub record LoginRequest : Type 0 where
  pub username : Text
  pub password : Text

abbrev pub max_username_len : ℕ
max_username_len = 64

abbrev pub max_password_len : ℕ
max_password_len = 128

-- the bounds that `login` tests
unfoldable pub out_of_bounds : Text → Text → Bool
out_of_bounds username password =
    is_empty username
    || is_empty password
    || ltb max_username_len (byte_len username)
    || ltb max_password_len (byte_len password)

unfoldable pub invalid_credentials_error : ApiError
invalid_credentials_error = api_error 401 "invalid credentials"

module _ ⦃B : Bcrypt⦄ ⦃J : Jwt⦄ (show_uuid : ℕ → Text) (state : AppState) (now : ℕ) where
  unfoldable pub give_token : User → Result ApiError Text
  give_token user =
      map_err (λ _. api_error 500 "internal error") (issue show_uuid state.token_service now user)

  check_password : User → Result AuthError Bool → Result ApiError Text
  unfolding give_token
  check_password user (ok true) = give_token user
  check_password user (ok false) = err invalid_credentials_error
  check_password user (err e) = err (api_error 500 "internal error")

  check_user : Text → Result AuthError User → Result ApiError Text
  unfolding check_password
  check_user password (ok user) = check_password user (verify_password password user.password_hash)
  check_user password (err e) = err invalid_credentials_error

  check_password_sound :
      (user : User) (checked : Result AuthError Bool) (token : Text)
      → check_password user checked ≡ ok token
      → (checked ≡ ok true) × (issue show_uuid state.token_service now user ≡ ok token)
  unfolding check_password
  check_password_sound user (ok true) token h =
      (refl, map_err-eq-ok (λ _. api_error 500 "internal error") _ h)
  check_password_sound user (ok false) token h = cc
  check_password_sound user (err e) token h = cc

  check_user_sound :
      (password : Text) (found : Result AuthError User) (token : Text)
      → check_user password found ≡ ok token
      → (user : User) × (found ≡ ok user)
        × (verify_password password user.password_hash ≡ ok true)
        × (issue show_uuid state.token_service now user ≡ ok token)
  unfolding check_user
  check_user_sound password (err e) token h = cc
  check_user_sound password (ok user) token h =
      let (valid, issued) = check_password_sound user _ token h in (user, refl, valid, issued)

module _ ⦃B : Bcrypt⦄ ⦃J : Jwt⦄ {S : Type 0} ⦃R : UserRepository S⦄ (show_uuid : ℕ → Text)
    (state : AppState) (now : ℕ) where
  check_login : LoginRequest → S → Result ApiError Text
  unfolding out_of_bounds check_user
  check_login payload store =
      if out_of_bounds payload.username payload.password
      then err invalid_credentials_error
      else check_user show_uuid state now payload.password
          (R.find_by_username payload.username store)

  -- the token of the response
  unfoldable pub login : Result JsonRejection LoginRequest → S → Result ApiError Text
  unfolding check_login
  login body store = do payload ← from_request body; check_login payload store

  -- A login that gives a token has found an account of that name and verified the password against
  -- its hash; the token is the one issued for that account.
  pub login_sound :
      (payload : LoginRequest) (store : S) (token : Text)
      → login (ok payload) store ≡ ok token
      → (user : User) × (R.find_by_username payload.username store ≡ ok user)
        × (verify_password payload.password user.password_hash ≡ ok true)
        × (issue show_uuid state.token_service now user ≡ ok token)
  unfolding login check_login from_request
  login_sound payload store token h =
      elim (Bool-cases (out_of_bounds payload.username payload.password)) [
        | inl e ↦ ground arith
        | inr e ↦
            check_user_sound show_uuid state now payload.password
              (R.find_by_username payload.username store) token (ground arith)
      ]
