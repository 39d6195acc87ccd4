-- ===== src/Rest/Users.antt =====
-- The handlers of may_rest/src/routes/users.rs, over any repository. An extractor that fails ends the
-- request before the handler; the task that hashes does not panic.
pub mod Admin
pub mod Table
use maysemantic.Auth.Password.{hash_password, Bcrypt}
use maysemantic.Rest.{
  from_request_parts, reject, AppState, Claims, Jwt, api_error, JsonRejection, ApiError,
}
use Prim.Native.String.{String}
use maysemantic.Auth.{is_admin, UserRepository, Role, User, AuthError, Outcome}
use maysemantic.Prelude.{
  map_err, if◌then◌else◌, Bool, is_empty, ltb, byte_len, ◌||◌, get_or, ℕ, Text, Option, Result,
  ◌>>=◌, map, not, List, none, some, ok, err,
}
use maysemantic.Auth.{user_not_found}

abbrev pub max_username_len : ℕ
max_username_len = 64

abbrev pub max_password_len : ℕ
max_password_len = 128

pub record CreateUserRequest : Type 0 where
  pub username : Text
  pub password : Text
  pub role : Role

pub record UpdateUserRequest : Type 0 where
  pub role : Option Role
  pub password : Option Text

pub record UserResponse : Type 0 where
  pub id : ℕ
  pub username : Text
  pub role : Role
  pub is_active : Bool
  pub created_at : ℕ
  pub updated_at : ℕ

-- `UserResponse::from`
unfoldable pub user_response : User → UserResponse
user_response user = record {
  id = user.id;
  username = user.username;
  role = user.role;
  is_active = user.is_active;
  created_at = user.created_at;
  updated_at = user.updated_at;
}

-- the bounds that `create_user` tests
unfoldable pub is_out_of_limits : Text → Text → Bool
is_out_of_limits username password =
    is_empty username
    || is_empty password
    || ltb max_username_len (byte_len username)
    || ltb max_password_len (byte_len password)

pub record PaginationQuery : Type 0 where
  pub page : ℕ
  pub per_page : ℕ

-- `default_page` and `default_per_page`, where the query string has no such key
unfoldable pub pagination : Option ℕ → Option ℕ → PaginationQuery
pagination page per_page = record { page = get_or 1 page; per_page = get_or 20 per_page }

-- what a handler answers, and the store it leaves
abbrev pub Reply : Type 0 → Type 0 → Type 0
Reply S A = Result ApiError A × S

unfoldable pub forbidden : ApiError
forbidden = api_error 403 "forbidden: requires admin role"

-- the error of the repository as `deactivate_user` and `update_user` report it
unfoldable pub user_error : String → AuthError → ApiError
user_error message user_not_found = api_error 404 "user not found"
user_error message _ = api_error 500 message

-- a reply of the repository put through the handler's conversions
unfoldable pub reply : {S A B : Type 0} → (AuthError → ApiError) → (A → B) → Outcome S A → Reply S B
reply f g (err e, store) = (err (f e), store)
reply f g (ok a, store) = (ok (g a), store)

module _ ⦃B : Bcrypt⦄ where
  -- the hash of the new password, where there is one
  optional_hash : Option Text → Result AuthError (Option Text)
  optional_hash none = ok none
  optional_hash (some pw) = do h ← hash_password pw; ok (some h)

module _ ⦃B : Bcrypt⦄ {S : Type 0} ⦃R : UserRepository S⦄ where
  create_hashed : Text → Role → Result AuthError Text → S → Reply S UserResponse
  create_hashed username role (err e) store = (err (api_error 500 "failed to hash password"), store)
  create_hashed username role (ok password_hash) store =
      reply (λ _. api_error 500 "failed to create user") user_response
        (R.create username password_hash role store)

  unfoldable pub create_user : Claims → CreateUserRequest → S → Reply S UserResponse
  unfolding create_hashed
  create_user claims payload store =
      if not (is_admin claims.role)
      then (err forbidden, store)
      else if is_out_of_limits payload.username payload.password
      then (
        err (api_error 400 "username/password must be non-empty and within length limits"),
        store,
      )
      else create_hashed payload.username payload.role (hash_password payload.password) store

  unfoldable pub list_users : Claims → PaginationQuery → S → Result ApiError (List UserResponse)
  list_users claims query store =
      if not (is_admin claims.role)
      then err forbidden
      else (map_err (λ _. api_error 500 "failed to list users")
            (R.list query.page query.per_page store)
          >>= λ users. ok (map user_response users))

  unfoldable pub deactivate_user : Claims → ℕ → S → Reply S (Unit {0})
  deactivate_user claims id store =
      if not (is_admin claims.role)
      then (err forbidden, store)
      else reply (user_error "failed to deactivate user") (λ u. u) (R.deactivate id store)

  update_hashed : ℕ → Option Role → Result AuthError (Option Text) → S → Reply S UserResponse
  update_hashed id role (err e) store = (err (api_error 500 "failed to hash password"), store)
  update_hashed id role (ok password_hash) store =
      reply (user_error "failed to update user") user_response
        (R.update id role password_hash store)

  unfoldable pub update_user : Claims → ℕ → UpdateUserRequest → S → Reply S UserResponse
  unfolding update_hashed optional_hash
  update_user claims id payload store =
      if not (is_admin claims.role)
      then (err forbidden, store)
      else update_hashed id payload.role (optional_hash payload.password) store

-- the routes of `router`, each with what its extractors other than the claims give
pub data UsersRequest : Type 0 where
  post_user : Result JsonRejection CreateUserRequest → UsersRequest
  get_users : PaginationQuery → UsersRequest
  delete_user : ℕ → UsersRequest
  put_user : ℕ → Result JsonRejection UpdateUserRequest → UsersRequest

-- a success, by its body
pub data UsersResponse : Type 0 where
  created updated : UserResponse → UsersResponse
  listed : List UserResponse → UsersResponse
  no_content : UsersResponse

respond : {S A : Type 0} → (A → UsersResponse) → Reply S A → Reply S UsersResponse
respond f (err e, store) = (err e, store)
respond f (ok a, store) = (ok (f a), store)

module _ ⦃B : Bcrypt⦄ {S : Type 0} ⦃R : UserRepository S⦄ where
  -- the handler that the route names, for claims that were accepted
  unfoldable pub handle : Claims → UsersRequest → S → Reply S UsersResponse
  unfolding respond
  handle claims (post_user (err e)) store = (err (reject e), store)
  handle claims (post_user (ok payload)) store = respond created (create_user claims payload store)
  handle claims (get_users query) store = respond listed (list_users claims query store, store)
  handle claims (delete_user id) store = respond (λ _. no_content) (deactivate_user claims id store)
  handle claims (put_user id (err e)) store = (err (reject e), store)
  handle claims (put_user id (ok payload)) store =
      respond updated (update_user claims id payload store)

  -- the claims are extracted first
  unfoldable pub handle_claims : Result ApiError Claims → UsersRequest → S → Reply S UsersResponse
  unfolding handle
  handle_claims (err e) request store = (err e, store)
  handle_claims (ok claims) request store = handle claims request store

module _ ⦃B : Bcrypt⦄ ⦃J : Jwt⦄ {S : Type 0} ⦃R : UserRepository S⦄ (state : AppState)
    (now : ℕ) where
  unfoldable pub users_router : Option Text → UsersRequest → S → Reply S UsersResponse
  unfolding handle_claims
  users_router authorization request store =
      handle_claims (from_request_parts state now authorization) request store
