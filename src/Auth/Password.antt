-- ===== src/Auth/Password.antt =====
-- may_auth/src/password.rs. bcrypt is the parameter `Bcrypt`: `hash` takes the cost and the
-- password, its salt being drawn within, and `check` is its `verify`.
use maysemantic.Auth.{hash_error, AuthError}
use maysemantic.Prelude.{
  ok_or, inr, arith, inl, Option-cases, some, true, Bool, ok, Option, Result, ◌≡◌, ℕ, str, Text,
}

pub record Bcrypt : Type 0 where
  pub hash : ℕ → Text → Option Text
  pub check : Text → Text → Option Bool
  -- a password verifies against a hash of its own
  pub check-hash : (cost : ℕ) (p h : Text) → hash cost p ≡ some h → check p h ≡ some true

abbrev pub bcrypt_cost : ℕ
bcrypt_cost = 12

module _ ⦃B : Bcrypt⦄ where
  unfoldable pub hash_password : Text → Result AuthError Text
  unfolding str
  hash_password plaintext = ok_or (B.hash bcrypt_cost plaintext) (hash_error (str "bcrypt"))

  unfoldable pub verify_password : Text → Text → Result AuthError Bool
  unfolding str
  verify_password plaintext hash = ok_or (B.check plaintext hash) (hash_error (str "bcrypt"))

  pub verify_password-hash_password :
      (p h : Text) → hash_password p ≡ ok h → verify_password p h ≡ ok true
  unfolding hash_password verify_password
  verify_password-hash_password p h e = elim (Option-cases (B.hash bcrypt_cost p)) [
    | inl n ↦ ground arith
    | inr (g, s) ↦ ground (arith, B.check-hash bcrypt_cost p g s)
  ]
