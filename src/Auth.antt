-- ===== src/Auth.antt =====
-- The accounts: may_auth/src/error.rs, models.rs, and the trait of repository.rs, which the
-- servers take as an interface. A uuid and an instant are numbers.
use maysemantic.Prelude.{Option, List, ℕ, Result, str, Text, Bool}
pub mod Store
pub mod Password
pub mod Token

pub data AuthError : Type 0 where
  user_not_found invalid_credentials token_expired invalid_token database : AuthError
  hash_error missing_config : Text → AuthError

pub data Role : Type 0 where
  admin viewer : Role

-- `role == Role::Admin`
unfoldable pub is_admin : Role → Bool
is_admin admin = Bool.true
is_admin viewer = Bool.false

unfoldable pub show_role : Role → Text
unfolding str
show_role admin = str "admin"
show_role viewer = str "viewer"

pub record User : Type 0 where
  pub id : ℕ
  pub username : Text
  pub password_hash : Text
  pub role : Role
  pub is_active : Bool
  pub created_at : ℕ
  pub updated_at : ℕ

-- What an operation of the repository gives, and the store it leaves.
abbrev pub Outcome : Type 0 → Type 0 → Type 0
Outcome S A = Result AuthError A × S

-- `trait UserRepository`, over the store that its implementation keeps
pub record UserRepository (S : Type 0) : Type 0 where
  pub find_by_username : Text → S → Result AuthError User
  pub create : Text → Text → Role → S → Outcome S User
  pub list : ℕ → ℕ → S → Result AuthError (List User)
  pub deactivate : ℕ → S → Outcome S (Unit {0})
  pub update : ℕ → Option Role → Option Text → S → Outcome S User
