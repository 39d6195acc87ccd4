-- ===== src/Auth/Store.antt =====
-- `PgUserRepository`, may_auth/src/repository.rs, and `ensure_admin` of seed.rs: the SQL statements
-- over the rows of the table `users` of may_auth/migrations, whose username is UNIQUE. A uuid
-- that the database draws and the time of the statement are arguments.
use maysemantic.Prelude.{none, some}
use mathlib.Core.Option.{some}
use maysemantic.Auth.{
  admin, user_not_found, missing_config, database, UserRepository, AuthError, Outcome, Role, User,
}
use maysemantic.Prelude.{
  ◌++◌, find, nat_eq, ok_or, err, ok, leb, if◌then◌else◌, ◌&&◌, get_or, ◌^◌, ◌%◌, ◌*◌, ◌∷◌, ◌==◌,
  filter, length, any, ◌-◌, suc, [], Option, ℕ, sort_by, str, Result, Bool, Text, List,
}
pub mod Unique
pub mod Seeded
use maysemantic.Prelude.{zero, suc}
use mathlib.Core.Option
pub mod Inactive

abbrev pub Users : Type 0
Users = List User

-- `WHERE username = $1 AND is_active = true`
is_named : Text → User → Bool
is_named username u = u.username == username && u.is_active

-- `WHERE id = $1 AND is_active = true`
unfoldable pub is_target : ℕ → User → Bool
is_target id u = nat_eq u.id id && u.is_active

unfoldable pub find_by_username : Text → Users → Result AuthError User
unfolding is_named
find_by_username username users = ok_or (find (is_named username) users) user_not_found

-- The columns that the INSERT does not name take their defaults.
unfoldable pub new_row : ℕ → ℕ → Text → Text → Role → User
new_row id now username password_hash role = record {
  id = id;
  username = username;
  password_hash = password_hash;
  role = role;
  is_active = Bool.true;
  created_at = now;
  updated_at = now;
}

-- the UNIQUE constraint
unfoldable pub is_taken : Text → Users → Bool
is_taken username users = any (λ u. u.username == username) users

unfoldable pub create : ℕ → ℕ → Text → Text → Role → Users → Outcome Users User
unfolding new_row is_taken
create id now username password_hash role users =
    if is_taken username users then (err database, users) else (
      ok (new_row id now username password_hash role),
      users ++ (new_row id now username password_hash role ∷ []),
    )

-- `UPDATE users SET … WHERE id = $1 AND is_active = true`
unfoldable pub update_rows : ℕ → (User → User) → Users → Users
unfolding is_target
update_rows id change [] = []
update_rows id change (u ∷ users) =
    (if is_target id u then change u else u) ∷ update_rows id change users

-- `rows_affected()`
unfoldable pub rows_affected : ℕ → Users → ℕ
unfolding is_target
rows_affected id users = length (filter (is_target id) users)

unfoldable pub retire : ℕ → User → User
retire now u = record u { is_active = Bool.false; updated_at = now }

unfoldable pub deactivate : ℕ → ℕ → Users → Outcome Users (Unit {0})
unfolding retire
deactivate now id users =
    if nat_eq (rows_affected id users) 0
    then (err user_not_found, update_rows id (retire now) users)
    else (ok tt, update_rows id (retire now) users)

-- `COALESCE($2, role)` and `COALESCE($3, password_hash)`
unfoldable pub amend : ℕ → Option Role → Option Text → User → User
amend now role password_hash u = record u {
  role = get_or u.role role;
  password_hash = get_or u.password_hash password_hash;
  updated_at = now;
}

-- `RETURNING` the row as it is after the change
unfoldable pub update : ℕ → ℕ → Option Role → Option Text → Users → Outcome Users User
unfolding amend
update now id role password_hash users = (
  ok_or (Option.map (amend now role password_hash) (find (is_target id) users)) user_not_found,
  update_rows id (amend now role password_hash) users,
)

-- `LIMIT` and `OFFSET`
take : ℕ → Users → Users
take zero users = []
take (suc n) [] = []
take (suc n) (u ∷ users) = u ∷ take n users

drop : ℕ → Users → Users
drop zero users = users
drop (suc n) [] = []
drop (suc n) (u ∷ users) = drop n users

-- The product of two `u32` wraps in a release build.
unfoldable pub offset_of : ℕ → ℕ → ℕ
offset_of page per_page = (page - 1) * per_page % 2 ^ 32

-- `ORDER BY created_at DESC`
newest_first : Users → Users
newest_first users = sort_by (λ (a b : User). leb b.created_at a.created_at) users

unfoldable pub list : ℕ → ℕ → Users → Result AuthError Users
unfolding take drop offset_of newest_first
list page per_page users = ok (take per_page (drop (offset_of page per_page) (newest_first users)))

-- `ON CONFLICT (username) DO NOTHING`
insert_or_nothing : User → Users → Users
insert_or_nothing u users = if is_taken u.username users then users else users ++ (u ∷ [])

-- the hash, or why there is none, and the INSERT
unfoldable pub seed : Result AuthError Text → ℕ → ℕ → Users → Outcome Users (Unit {0})
unfolding insert_or_nothing str
seed (err e) id now users = (err e, users)
seed (ok h) id now users = (ok tt, insert_or_nothing (new_row id now (str "admin") h admin) users)

-- `ensure_admin` for MAY_ADMIN_PASSWORD of the environment; `hash` is `hash_password`.
unfoldable pub ensure_admin :
    (Text → Result AuthError Text) → Option Text → ℕ → ℕ → Users → Outcome Users (Unit {0})
unfolding seed
ensure_admin hash none id now users = (
  err (missing_config (str "MAY_ADMIN_PASSWORD must be set to seed the initial admin account")),
  users,
)
ensure_admin hash (some password) id now users = seed (hash password) id now users

-- the database of one statement: the uuid that it draws and the time
unfoldable pub pg_user_repository : ℕ → ℕ → UserRepository Users
unfolding create deactivate update list find_by_username
pg_user_repository id now = record {
  find_by_username = find_by_username;
  create = create id now;
  list = list;
  deactivate = deactivate now;
  update = update now;
}
