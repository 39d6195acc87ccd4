-- ===== src/Auth/Store/Seeded.antt =====
-- The account that `ensure_admin` of may_auth/src/seed.rs leaves.
use maysemantic.Auth.{AuthError, User, admin}
use maysemantic.Auth.Store.{Users, is_taken, insert_or_nothing, new_row, seed, ensure_admin}
use maysemantic.Auth.Store.Unique.{is_taken-append}
use maysemantic.Prelude.{
  subst, str, any, Text, ℕ, Option, some, none, ok, err, true, ◌≡◌, ◌∷◌, [], Result, arith,
  Bool-cases, inl, inr, eq_iff, ap,
}

insert_or_nothing-is_taken :
    (u : User) (users : Users) → is_taken u.username (insert_or_nothing u users) ≡ true
unfolding insert_or_nothing
insert_or_nothing-is_taken u users = elim (Bool-cases (is_taken u.username users)) [
  | inl e ↦ ground arith
  | inr e ↦ rw e (
      rw (is_taken-append u.username users (u ∷ []))
        (unfold is_taken any in ground (arith, eq_iff u.username u.username)))
]

-- Where the seeding succeeds, there is an account of the name `admin`.
pub ensure_admin-is_taken :
    (hash : Text → Result AuthError Text) (password : Option Text) (id now : ℕ)
    (users users' : Users)
    → ensure_admin hash password id now users ≡ (ok tt, users')
    → is_taken (str "admin") users' ≡ true
unfolding ensure_admin new_row
ensure_admin-is_taken hash none id now users users' h = ground arith
ensure_admin-is_taken hash (some password) id now users users' h = seeded (hash password) h
  where
    seeded :
        (r : Result AuthError Text)
        → seed r id now users ≡ (ok tt, users')
        → is_taken (str "admin") users' ≡ true
    seeded (err e) g = unfold seed in ground arith
    seeded (ok p) g =
        unfold seed in
        subst (λ us. is_taken (str "admin") us ≡ true) (ap (λ p. p.1) g)
          (insert_or_nothing-is_taken (new_row id now (str "admin") p admin) users)
