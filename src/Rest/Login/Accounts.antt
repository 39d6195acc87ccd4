-- ===== src/Rest/Login/Accounts.antt =====
-- `create_user`, `deactivate_user` and `login` of may_rest over the table of may_auth: an account
-- that the server made can log in, and one that it deactivated cannot.

use maysemantic.Auth.{Outcome, AuthError, is_admin}
use maysemantic.Auth.Store.Inactive.{find_by_username-deactivated}
use maysemantic.Auth.Store.Unique.{find_by_username-create, Changes, IsUnique}
use mathlib.Core.List.{Memᴰ}
use maysemantic.Rest.Users.{
  is_out_of_limits, user_response, reply, create_user, UserResponse, CreateUserRequest,
}
use maysemantic.Rest.Login.{
  check_password, out_of_bounds, invalid_credentials_error, give_token, check_user, check_login,
  login,
}
use maysemantic.Rest.{ApiError, api_error, User, from_request, AppState}
use maysemantic.Auth.Token.{Claims, Jwt}
use maysemantic.Auth.Store.{create, new_row, Users, pg_user_repository}
use maysemantic.Auth.Password.{verify_password-hash_password, hash_password, Bcrypt}
use maysemantic.Prelude.{arith, refl, Bool-cases, ◌≡◌, Text, ℕ, ok, err, inl, inr, false}

module _ ⦃B : Bcrypt⦄ ⦃J : Jwt⦄ (show_uuid : ℕ → Text) (state : AppState) where
  -- Once an account is deactivated, its username is refused with 401 whatever password is given,
  -- after any statements on the table: for its row, not active, in a table without a repeated username.
  pub login-deactivated :
      (u : User) (password : Text) (id now : ℕ) {users users' : Users}
      → u.is_active ≡ false
      → Memᴰ u users
      → IsUnique users
      → Changes users users'
      → login ⦃R = pg_user_repository id now⦄ show_uuid state now
          (ok (record { username = u.username; password = password }))
          users'
        ≡ err invalid_credentials_error
  unfolding login check_login from_request check_user pg_user_repository
  login-deactivated u password id now {users' = users'} off m h changes =
      let (_, refused) = find_by_username-deactivated u off m h changes in
      elim (Bool-cases (out_of_bounds u.username password)) [
        | inl e ↦ rw e refl
        | inr e ↦ rw (e, refused) refl
      ]

reply-ok :
    {S A C : Type 0} (f : AuthError → ApiError) (g : A → C) (out : Outcome S A) (c : C) (s : S)
    → reply f g out ≡ (ok c, s)
    → (a : A) × (out ≡ (ok a, s))
unfolding reply
reply-ok f g (ok a, t) c s h = (a, ground arith)
reply-ok f g (err e, t) c s h = ground arith

out_of_bounds-create_user :
    (username password : Text)
    → is_out_of_limits username password ≡ false
    → out_of_bounds username password ≡ false
unfolding out_of_bounds is_out_of_limits
out_of_bounds-create_user username password h = h

module _ ⦃B : Bcrypt⦄ where
  create_user-ok :
      (claims : Claims) (payload : CreateUserRequest) (id created : ℕ) (users users' : Users)
      (made : UserResponse) (hash : Text)
      → hash_password payload.password ≡ ok hash
      → create_user ⦃R = pg_user_repository id created⦄ claims payload users ≡ (ok made, users')
      → (is_out_of_limits payload.username payload.password ≡ false)
        × (u : User) × (create id created payload.username hash payload.role users ≡ (ok u, users'))
  unfolding create_user pg_user_repository
  create_user-ok claims payload id created users users' made hash hashed h =
      elim (Bool-cases (is_admin claims.role)) [
        | inr e ↦ ground arith
        | inl e ↦ elim (Bool-cases (is_out_of_limits payload.username payload.password)) [
          | inl o ↦ ground arith
          | inr o ↦
              let (u, made_row) =
                reply-ok (λ _. api_error 500 "failed to create user") user_response
                  (create id created payload.username hash payload.role users) made users'
                  (rw (e, o, hashed) at h) in
              (o, u, made_row)
        ]
      ]

module _ ⦃B : Bcrypt⦄ ⦃J : Jwt⦄ (show_uuid : ℕ → Text) (state : AppState) where
  -- An account that `create_user` made can log in with the password that it was made with: the bounds
  -- of the two handlers agree, and the answer is the token issued for the new row, where signing works.
  pub login-create_user :
      (claims : Claims) (payload : CreateUserRequest) (id created id' now : ℕ)
      (users users' : Users) (made : UserResponse) (hash : Text)
      → hash_password payload.password ≡ ok hash
      → create_user ⦃R = pg_user_repository id created⦄ claims payload users ≡ (ok made, users')
      → login ⦃R = pg_user_repository id' now⦄ show_uuid state now
          (ok (record { username = payload.username; password = payload.password }))
          users'
        ≡ give_token show_uuid state now (new_row id created payload.username hash payload.role)
  unfolding login check_login from_request check_user check_password pg_user_repository
  login-create_user claims payload id created id' now users users' made hash hashed h =
      let (bounds, u, made_row) =
        create_user-ok claims payload id created users users' made hash hashed h in
      let found =
        find_by_username-create id created payload.username hash payload.role users users' u
          made_row in
      let valid = verify_password-hash_password payload.password hash hashed in
      rw (out_of_bounds-create_user payload.username payload.password bounds, found, valid) refl
