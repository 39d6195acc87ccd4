-- ===== src/Auth/Store/Unique.antt =====
-- Usernames stay unique: the constraint of the table `users` under every statement of
-- may_auth/src/repository.rs and seed.rs.
use maysemantic.Prelude.{
  inr, inl, Bool-cases, eq_refl, true, find, eq_iff, ◌||◌, none, refl, ◌++◌, any, [],
}
use maysemantic.Prelude.{str, Result, Option, arith, false, ◌≡◌, Text, ℕ}
use maysemantic.Auth.Store.{
  is_named, find_by_username, seed, admin, ok, err, some, amend, AuthError, retire, new_row,
  ensure_admin, Role, update, User, is_target, deactivate, ◌∷◌, insert_or_nothing, create, is_taken,
  update_rows, Users,
}

-- no two rows share a username
abbrev pub IsUnique : Users → Type 0
IsUnique [] = Unit
IsUnique (u ∷ users) = (is_taken u.username users ≡ false) × IsUnique users

-- One statement that changes the table, with the arguments that the database chooses.
pub data Change : Users → Users → Type 0 where
  created :
      (id now : ℕ) (username password_hash : Text) (role : Role) (users : Users)
      → Change users (create id now username password_hash role users).1
  deactivated : (id now : ℕ) (users : Users) → Change users (deactivate now id users).1
  updated :
      (id now : ℕ) (role : Option Role) (password_hash : Option Text) (users : Users)
      → Change users (update now id role password_hash users).1
  seeded :
      (hash : Text → Result AuthError Text) (password : Option Text) (id now : ℕ) (users : Users)
      → Change users (ensure_admin hash password id now users).1

-- any number of statements
pub data Changes (s : Users) : Users → Type 0 where
  here : Changes s s
  next : {t u : Users} → Changes s t → Change t u → Changes s u

pub is_taken-append :
    (n : Text) (xs ys : Users) → is_taken n (xs ++ ys) ≡ (is_taken n xs || is_taken n ys)
unfolding is_taken any
is_taken-append n [] ys = refl
is_taken-append n (x ∷ xs) ys = ground (arith, is_taken-append n xs ys)

append-IsUnique :
    (users : Users) (u : User)
    → IsUnique users
    → is_taken u.username users ≡ false
    → IsUnique (users ++ (u ∷ []))
unfolding is_taken any
append-IsUnique [] u h free = (refl, tt)
append-IsUnique (x ∷ users) u h free = ground (
  arith,
  append-IsUnique users u h.1,
  is_taken-append x.username users (u ∷ []),
  eq_iff x.username u.username,
  eq_iff u.username x.username,
)

pub is_taken-update_rows :
    (n : Text) (id : ℕ) (change : User → User)
    → ((u : User) → (change u).username ≡ u.username)
    → (users : Users) → is_taken n (update_rows id change users) ≡ is_taken n users
unfolding is_taken any update_rows is_target
is_taken-update_rows n id change same [] = refl
is_taken-update_rows n id change same (u ∷ users) =
    ground (arith, is_taken-update_rows n id change same users, same u)

update_rows-IsUnique :
    (id : ℕ) (change : User → User)
    → ((u : User) → (change u).username ≡ u.username)
    → (users : Users) → IsUnique users
    → IsUnique (update_rows id change users)
unfolding update_rows
update_rows-IsUnique id change same [] h = tt
update_rows-IsUnique id change same (u ∷ users) h = ground (
  arith,
  update_rows-IsUnique id change same users h.1,
  same u,
  is_taken-update_rows u.username id change same users,
)

insert_or_nothing-IsUnique :
    (u : User) (users : Users) → IsUnique users → IsUnique (insert_or_nothing u users)
unfolding insert_or_nothing
insert_or_nothing-IsUnique u users h = ground (arith, append-IsUnique users u h)

seed-IsUnique :
    (r : Result AuthError Text) (id now : ℕ) (users : Users)
    → IsUnique users
    → IsUnique (seed r id now users).1
unfolding seed
seed-IsUnique (err e) id now users h = h
seed-IsUnique (ok g) id now users h =
    insert_or_nothing-IsUnique (new_row id now (str "admin") g admin) users h

pub Change-IsUnique :
    {users users' : Users} → Change users users' → IsUnique users → IsUnique users'
unfolding create deactivate update ensure_admin
Change-IsUnique (created id now username hash role users) h =
    ground (arith, append-IsUnique users (new_row id now username hash role) h)
Change-IsUnique (deactivated id now users) h =
    ground (arith, update_rows-IsUnique id (retire now) (λ u. refl) users h)
Change-IsUnique (updated id now role hash users) h =
    update_rows-IsUnique id (amend now role hash) (λ u. refl) users h
Change-IsUnique (seeded hash none id now users) h = h
Change-IsUnique (seeded hash (some password) id now users) h =
    seed-IsUnique (hash password) id now users h

-- In every table that the statements make from one without a repeated username, among them the
-- empty one, no two rows share a username.
pub Changes-IsUnique :
    {users users' : Users} → Changes users users' → IsUnique users → IsUnique users'
Changes-IsUnique here h = h
Changes-IsUnique (next before c) h = Change-IsUnique c (Changes-IsUnique before h)

find-append :
    (n : Text) (users : Users) (u : User)
    → is_taken n users ≡ false
    → is_named n u ≡ true
    → find (is_named n) (users ++ (u ∷ [])) ≡ some u
unfolding find is_taken any is_named
find-append n [] u free named = rw named refl
find-append n (x ∷ users) u free named = ground (arith, find-append n users u)

-- The row that is created is found by its username.
pub find_by_username-create :
    (id now : ℕ) (username password_hash : Text) (role : Role) (users users' : Users) (u : User)
    → create id now username password_hash role users ≡ (ok u, users')
    → find_by_username username users' ≡ ok (new_row id now username password_hash role)
unfolding create find_by_username
find_by_username-create id now username hash role users users' u h =
    let row = new_row id now username hash role in
    let named : is_named username row ≡ true = unfold is_named in rw (eq_refl username) refl in
    elim (Bool-cases (is_taken username users)) [
      | inl e ↦ ground arith
      | inr e ↦ ground (arith, find-append username users row e named)
    ]
