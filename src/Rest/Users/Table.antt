-- ===== src/Rest/Users/Table.antt =====
-- The table of users under the requests of may_rest/src/routes/users.rs and the seeding of
-- may_auth/src/seed.rs.
use maysemantic.Prelude.{inr, inl, Text, Bool-cases, ok, [], Option, Result, ℕ, err}
use maysemantic.Auth.{Role, is_admin, AuthError, Outcome}
use maysemantic.Auth.Store.{Users, pg_user_repository, ensure_admin}
use maysemantic.Auth.Store.Unique.{IsUnique, created, deactivated, updated, seeded, Change-IsUnique}
use maysemantic.Auth.Password.{hash_password}
use maysemantic.Rest.Users.{
  is_out_of_limits, update_user, deactivate_user, create_user, create_hashed, update_hashed, handle,
  handle_claims, users_router, respond, reply, UsersResponse, UsersRequest, post_user, get_users,
  delete_user, put_user, Reply, CreateUserRequest, UpdateUserRequest, AppState, Claims, ApiError,
  Jwt, Bcrypt, from_request_parts,
}

respond-IsUnique :
    {A : Type 0} (f : A → UsersResponse) (r : Reply Users A)
    → IsUnique r.1
    → IsUnique (respond f r).1
unfolding respond
respond-IsUnique f (err e, users) h = h
respond-IsUnique f (ok a, users) h = h

reply-IsUnique :
    {A C : Type 0} (f : AuthError → ApiError) (g : A → C) (r : Outcome Users A)
    → IsUnique r.1
    → IsUnique (reply f g r).1
unfolding reply
reply-IsUnique f g (err e, users) h = h
reply-IsUnique f g (ok a, users) h = h

module _ ⦃B : Bcrypt⦄ (id now : ℕ) where
  create_hashed-IsUnique :
      (username : Text) (role : Role) (hash : Result AuthError Text) (users : Users)
      → IsUnique users
      → IsUnique (create_hashed ⦃R = pg_user_repository id now⦄ username role hash users).1
  unfolding create_hashed pg_user_repository
  create_hashed-IsUnique username role (err e) users h = h
  create_hashed-IsUnique username role (ok hash) users h =
      reply-IsUnique _ _ _ (Change-IsUnique (created id now username hash role users) h)

  update_hashed-IsUnique :
      (target : ℕ) (role : Option Role) (hash : Result AuthError (Option Text)) (users : Users)
      → IsUnique users
      → IsUnique (update_hashed ⦃R = pg_user_repository id now⦄ target role hash users).1
  unfolding update_hashed pg_user_repository
  update_hashed-IsUnique target role (err e) users h = h
  update_hashed-IsUnique target role (ok hash) users h =
      reply-IsUnique _ _ _ (Change-IsUnique (updated target now role hash users) h)

  create_user-IsUnique :
      (claims : Claims) (payload : CreateUserRequest) (users : Users)
      → IsUnique users
      → IsUnique (create_user ⦃R = pg_user_repository id now⦄ claims payload users).1
  unfolding create_user
  create_user-IsUnique claims payload users h = elim (Bool-cases (is_admin claims.role)) [
    | inl e ↦ elim (Bool-cases (is_out_of_limits payload.username payload.password)) [
      | inl f ↦ rw (e, f) h
      | inr f ↦ rw (e, f) (create_hashed-IsUnique payload.username payload.role _ users h)
    ]
    | inr e ↦ rw e h
  ]

  deactivate_user-IsUnique :
      (claims : Claims) (target : ℕ) (users : Users)
      → IsUnique users
      → IsUnique (deactivate_user ⦃R = pg_user_repository id now⦄ claims target users).1
  unfolding deactivate_user pg_user_repository
  deactivate_user-IsUnique claims target users h = elim (Bool-cases (is_admin claims.role)) [
    | inl e ↦ rw e (reply-IsUnique _ _ _ (Change-IsUnique (deactivated target now users) h))
    | inr e ↦ rw e h
  ]

  update_user-IsUnique :
      (claims : Claims) (target : ℕ) (payload : UpdateUserRequest) (users : Users)
      → IsUnique users
      → IsUnique (update_user ⦃R = pg_user_repository id now⦄ claims target payload users).1
  unfolding update_user
  update_user-IsUnique claims target payload users h = elim (Bool-cases (is_admin claims.role)) [
    | inl e ↦ rw e (update_hashed-IsUnique target payload.role _ users h)
    | inr e ↦ rw e h
  ]

  handle-IsUnique :
      (claims : Claims) (request : UsersRequest) (users : Users)
      → IsUnique users
      → IsUnique (handle ⦃R = pg_user_repository id now⦄ claims request users).1
  unfolding handle
  handle-IsUnique claims (post_user (err e)) users h = h
  handle-IsUnique claims (post_user (ok payload)) users h =
      respond-IsUnique _ _ (create_user-IsUnique claims payload users h)
  handle-IsUnique claims (get_users query) users h = respond-IsUnique _ _ h
  handle-IsUnique claims (delete_user target) users h =
      respond-IsUnique _ _ (deactivate_user-IsUnique claims target users h)
  handle-IsUnique claims (put_user target (err e)) users h = h
  handle-IsUnique claims (put_user target (ok payload)) users h =
      respond-IsUnique _ _ (update_user-IsUnique claims target payload users h)

  handle_claims-IsUnique :
      (claims : Result ApiError Claims) (request : UsersRequest) (users : Users)
      → IsUnique users
      → IsUnique (handle_claims ⦃R = pg_user_repository id now⦄ claims request users).1
  unfolding handle_claims
  handle_claims-IsUnique (err e) request users h = h
  handle_claims-IsUnique (ok claims) request users h = handle-IsUnique claims request users h

module _ ⦃B : Bcrypt⦄ ⦃J : Jwt⦄ (state : AppState) where
  -- the tables that any seedings and any requests, of anybody and at any times, make of an empty one
  pub data Served : Users → Type 0 where
    empty_table : Served []
    booted :
        {users : Users} (password : Option Text) (id now : ℕ)
        → Served users
        → Served (ensure_admin hash_password password id now users).1
    requested :
        {users : Users} (id now : ℕ) (authorization : Option Text) (request : UsersRequest)
        → Served users
        → Served
            (users_router ⦃R = pg_user_repository id now⦄ state now authorization request users).1

  -- From an empty table, however often it is seeded and whatever requests the routes of the users are
  -- sent, no two accounts share a username.
  pub Served-IsUnique : {users : Users} → Served users → IsUnique users
  unfolding users_router
  Served-IsUnique empty_table = tt
  Served-IsUnique (booted {users = users} password id now s) =
      Change-IsUnique (seeded hash_password password id now users) (Served-IsUnique s)
  Served-IsUnique (requested {users = users} id now authorization request s) =
      handle_claims-IsUnique id now (from_request_parts state now authorization) request users
        (Served-IsUnique s)
