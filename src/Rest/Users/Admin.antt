-- ===== src/Rest/Users/Admin.antt =====
-- Who may use the routes of may_rest/src/routes/users.rs: the claims of the bearer token decide.

-- the claims of an administrator
use maysemantic.Rest.{verify, check_token, api_error, bearer_token}
use maysemantic.Prelude.{
  ap, sym, map_err, refl, false, Text, Option, Bool-cases, true, ◌≡◌, ℕ, Result, ok, err, some,
  none, inl, inr,
}
use maysemantic.Rest.Users.{
  forbidden, update_user, deactivate_user, from_request_parts, list_users, is_admin, handle_claims,
  create_user, users_router, UsersResponse, handle, AppState, Claims, Reply, ApiError, Jwt,
  UserRepository, Bcrypt, UsersRequest, post_user, get_users, delete_user, put_user,
}

abbrev pub IsAdmin : Result ApiError Claims → Type 0
IsAdmin (ok claims) = is_admin claims.role ≡ true
IsAdmin (err e) = ⊥

-- the request itself was read: its body is JSON of the right shape
abbrev pub IsRead : UsersRequest → Type 0
IsRead (post_user (err e)) = ⊥
IsRead (put_user id (err e)) = ⊥
IsRead request = Unit

-- an answer that leaves the store alone and refuses
abbrev pub IsRefusal : {S : Type 0} → S → ℕ → Reply S UsersResponse → Type 0
IsRefusal store status (ok a, store') = ⊥
IsRefusal store status (err e, store') = (e.status ≡ status) × (store' ≡ store)

module _ ⦃B : Bcrypt⦄ {S : Type 0} ⦃R : UserRepository S⦄ where
  handle-forbidden :
      (claims : Claims) (request : UsersRequest) (store : S)
      → is_admin claims.role ≡ false
      → IsRead request
      → IsRefusal store 403 (handle claims request store)
  unfolding handle create_user list_users deactivate_user update_user forbidden api_error
  handle-forbidden claims (post_user (err e)) store h r = absurd r
  handle-forbidden claims (post_user (ok payload)) store h r = rw h (refl, refl)
  handle-forbidden claims (get_users query) store h r = rw h (refl, refl)
  handle-forbidden claims (delete_user id) store h r = rw h (refl, refl)
  handle-forbidden claims (put_user id (err e)) store h r = absurd r
  handle-forbidden claims (put_user id (ok payload)) store h r = rw h (refl, refl)

-- the status that refuses: no claims, or those of another role
abbrev pub refusal_status : Result ApiError Claims → ℕ
refusal_status (ok claims) = 403
refusal_status (err e) = 401

map_err-const :
    {E A : Type 0} (x e : ApiError) (m : Result E A) → map_err (λ _. x) m ≡ err e → x ≡ e
map_err-const x e (ok a) h = cc
map_err-const x e (err y) h = cc

module _ ⦃J : Jwt⦄ (state : AppState) (now : ℕ) where
  check_token-status :
      (token : Option Text) (e : ApiError) → check_token state now token ≡ err e → e.status ≡ 401
  unfolding check_token api_error
  check_token-status none e h = cc
  check_token-status (some t) e h = sym (
      ap (λ (a : ApiError). a.status)
        (map_err-const (api_error 401 "invalid or expired token") e
          (verify state.token_service now t) h))

module _ ⦃B : Bcrypt⦄ {S : Type 0} ⦃R : UserRepository S⦄ where
  handle_claims-IsRefusal :
      (claims : Result ApiError Claims) (request : UsersRequest) (store : S)
      → ((e : ApiError) → claims ≡ err e → e.status ≡ 401)
      → ¬ IsAdmin claims
      → IsRead request
      → IsRefusal store (refusal_status claims) (handle_claims claims request store)
  unfolding handle_claims
  handle_claims-IsRefusal (err e) request store s h r = (s e refl, refl)
  handle_claims-IsRefusal (ok claims) request store s h r =
      elim (Bool-cases (is_admin claims.role)) [
        | inl yes_admin ↦ absurd (h yes_admin)
        | inr other ↦ handle-forbidden claims request store other r
      ]

module _ ⦃B : Bcrypt⦄ ⦃J : Jwt⦄ {S : Type 0} ⦃R : UserRepository S⦄ (state : AppState)
    (now : ℕ) where
  -- Without the token of an administrator no route of the users does anything: a request that was
  -- read and whose Authorization header gives no claims is answered 401, one whose claims are of
  -- another role 403, and the store stays as it is.
  pub users_router-IsRefusal :
      (authorization : Option Text) (request : UsersRequest) (store : S)
      → ¬ IsAdmin (from_request_parts state now authorization)
      → IsRead request
      → IsRefusal store
          (refusal_status (from_request_parts state now authorization))
          (users_router state now authorization request store)
  unfolding users_router from_request_parts
  users_router-IsRefusal authorization request store h r =
      handle_claims-IsRefusal (from_request_parts state now authorization) request store
        (check_token-status state now (bearer_token authorization)) h r
