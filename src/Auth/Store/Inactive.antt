-- ===== src/Auth/Store/Inactive.antt =====
-- A deactivated account: no statement of may_auth/src/repository.rs or seed.rs touches its row again.
use maysemantic.Auth.Store.Unique.{here, next}
use mathlib.Core.Logic.{⊎_elim}
use maysemantic.Auth.Store.Unique.{
  seeded, Changes-IsUnique, updated, IsUnique, next, deactivated, created, Changes, Change,
}
use mathlib.Core.List.{◌∷◌, Memᴰ}
use maysemantic.Prelude.{Result, str, eq_iff, refl, Bool-cases, ◌≢◌, Text, arith, false, ◌≡◌, ℕ}
use maysemantic.Auth.Store.{
  AuthError, seed, admin, amend, new_row, user_not_found, Role, is_named, find_by_username, retire,
  insert_or_nothing, is_taken, ensure_admin, Users, update, User, deactivate, is_target, create,
  update_rows,
}
use mathlib.Core.List.Memᴰ
use maysemantic.Prelude.{[], ◌∷◌, none, some, ok, err, inl, inr, false, any, find}

update_rows-keeps :
    (id : ℕ) (change : User → User) (u : User) (users : Users)
    → Memᴰ u users
    → u.is_active ≡ false
    → Memᴰ u (update_rows id change users)
unfolding update_rows is_target
update_rows-keeps id change u [] m h = m
update_rows-keeps id change u (x ∷ users) m h =
    ⊎_elim (λ e. Memᴰ.head (ground (arith, e)))
      (λ t. Memᴰ.tail (update_rows-keeps id change u users t h)) (Memᴰ.cases_cons m)

insert_or_nothing-keeps :
    (u v : User) (users : Users) → Memᴰ u users → Memᴰ u (insert_or_nothing v users)
unfolding insert_or_nothing
insert_or_nothing-keeps u v users m = elim (Bool-cases (is_taken v.username users)) [
  | inl e ↦ rw e m
  | inr e ↦ rw e (Memᴰ.append_left (v ∷ []) m)
]

seed-keeps :
    (u : User) (r : Result AuthError Text) (id now : ℕ) (users : Users)
    → Memᴰ u users
    → Memᴰ u (seed r id now users).1
unfolding seed
seed-keeps u (err e) id now users m = m
seed-keeps u (ok g) id now users m =
    insert_or_nothing-keeps u (new_row id now (str "admin") g admin) users m

create-keeps :
    (u : User) (id now : ℕ) (username hash : Text) (role : Role) (users : Users)
    → Memᴰ u users
    → Memᴰ u (create id now username hash role users).1
unfolding create
create-keeps u id now username hash role users m = elim (Bool-cases (is_taken username users)) [
  | inl e ↦ rw e m
  | inr e ↦ rw e (Memᴰ.append_left (new_row id now username hash role ∷ []) m)
]

deactivate-eq :
    (now id : ℕ) (users : Users) → (deactivate now id users).1 ≡ update_rows id (retire now) users
unfolding deactivate
deactivate-eq now id users = ground arith

module _ (u : User) (off : u.is_active ≡ false) where
  Change-keeps : {users users' : Users} → Change users users' → Memᴰ u users → Memᴰ u users'
  unfolding update ensure_admin
  Change-keeps (created id now username hash role users) m =
      create-keeps u id now username hash role users m
  Change-keeps (deactivated id now users) m =
      rw (deactivate-eq now id users) (update_rows-keeps id (retire now) u users m off)
  Change-keeps (updated id now role hash users) m =
      update_rows-keeps id (amend now role hash) u users m off
  Change-keeps (seeded hash none id now users) m = m
  Change-keeps (seeded hash (some password) id now users) m =
      seed-keeps u (hash password) id now users m

  Changes-keeps : {users users' : Users} → Changes users users' → Memᴰ u users → Memᴰ u users'
  Changes-keeps here m = m
  Changes-keeps (next before c) m = Change-keeps c (Changes-keeps before m)

free-not_mem :
    (u : User) (n : Text) (users : Users) → is_taken n users ≡ false → Memᴰ u users → u.username ≢ n
unfolding is_taken any
free-not_mem u n [] free m e = Memᴰ.not-nil m
free-not_mem u n (x ∷ users) free m e =
    ⊎_elim (λ p. ground (arith, p, eq_iff x.username n))
      (λ t. free-not_mem u n users (ground arith) t e) (Memᴰ.cases_cons m)

find-free : (n : Text) (users : Users) → is_taken n users ≡ false → find (is_named n) users ≡ none
unfolding is_taken any find is_named
find-free n [] free = refl
find-free n (x ∷ users) free = ground (arith, find-free n users)

find-inactive :
    (u : User) (users : Users)
    → u.is_active ≡ false
    → IsUnique users
    → Memᴰ u users
    → find (is_named u.username) users ≡ none
unfolding find is_named
find-inactive u [] off h m = refl
find-inactive u (x ∷ users) off h m =
    ⊎_elim (λ p. ground (arith, p, find-free u.username users))
      (λ t.
        let other = free-not_mem u x.username users h.0 t in
        ground (arith, find-inactive u users off h.1 t, eq_iff x.username u.username, other))
      (Memᴰ.cases_cons m)

-- The row of a deactivated account stays in the table as it is, and its username finds no account,
-- whatever statements follow: a row that is not active, in a table without a repeated username.
pub find_by_username-deactivated :
    (u : User) {users users' : Users}
    → u.is_active ≡ false
    → Memᴰ u users
    → IsUnique users
    → Changes users users'
    → Memᴰ u users' × (find_by_username u.username users' ≡ err user_not_found)
unfolding find_by_username
find_by_username-deactivated u {users' = users'} off m h changes =
    let kept = Changes-keeps u off changes m in
    (kept, rw (find-inactive u users' off (Changes-IsUnique changes h) kept) refl)
