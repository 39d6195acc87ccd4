-- ===== src/Pgwire/Startup/Sessions.antt =====
-- Who is let in by `on_startup`, may_pgwire/src/handler.rs, message by message.

use mathlib.Core.List.{Memᴰ}
use mathlib.Core.List.Memᴰ
use mathlib.Core.Logic.{⊎_elim}
use maysemantic.Pgwire.{ErrorInfo}
use maysemantic.Pgwire.Startup.{
  Action, refuse_ssl, save_startup_parameters, set_authentication_in_progress,
  ask_cleartext_password,
}
use maysemantic.Pgwire.Startup.{
  authenticate, ssl_request, startup, other_message, is_verified, verify_password, password_of,
  AuthError, User, on_startup, is_valid, FrontendMessage, UserRepository, Bcrypt,
  password_message_family, finish_authentication,
}
use maysemantic.Prelude.{
  sym, subst, ok-injective, ◌≢◌, arith, Bool-cases, >>=-eq-ok, inl, inr, Bool, ◌↔◌, ◌≡◌, Result,
  Text, Option, ℕ, true, ap, refl, ok, err, [], ◌∷◌, List, some, none,
}

module _ ⦃B : Bcrypt⦄ {S : Type 0} ⦃R : UserRepository S⦄ (from_utf8 : List ℕ → Option Text)
    (store : S) where
  -- the message carries the password of the account that the metadata names
  abbrev pub IsLogin : Option Text → FrontendMessage → Type 0
  IsLogin (some user_name) (password_message_family m) =
      (p : Text) × (user : User) × (password_of from_utf8 m ≡ ok p)
      × (R.find_by_username user_name store ≡ ok user)
      × (verify_password p user.password_hash ≡ ok true)
  IsLogin _ _ = ⊥

  is_valid-true :
      (p : Text) (found : Result AuthError User)
      → is_valid p found ≡ true
      → (user : User) × (found ≡ ok user) × (verify_password p user.password_hash ≡ ok true)
  unfolding is_valid
  is_valid-true p (err e) h = cc
  is_valid-true p (ok user) h =
      (user, refl, is_verified-true (verify_password p user.password_hash) h)
    where
      is_verified-true : (r : Result AuthError Bool) → is_verified r ≡ true → r ≡ ok true
      is_verified-true (ok b) g = ap ok g
      is_verified-true (err e) g = cc

  -- the answer lets the client in, whatever else it does
  abbrev pub LetsIn : Result ErrorInfo (List Action) → Type 0
  LetsIn answer =
      (actions : List Action) × (answer ≡ ok actions) × Memᴰ finish_authentication actions

  authenticated :
      (user_name p : Text)
      → LetsIn (authenticate from_utf8 store (some user_name) p)
      → is_valid p (R.find_by_username user_name store) ≡ true
  unfolding authenticate
  authenticated user_name p (actions, e, m) =
      elim (Bool-cases (is_valid p (R.find_by_username user_name store))) [
        | inl valid ↦ valid
        | inr refused ↦ ground arith
      ]

  only_others :
      (x : Action) (xs : List Action)
      → x ≢ finish_authentication
      → ¬ Memᴰ finish_authentication xs
      → ¬ Memᴰ finish_authentication (x ∷ xs)
  only_others x xs n none_left m = ⊎_elim (λ e. n (sym e)) none_left (Memᴰ.cases_cons m)

  refusing_ssl : ¬ Memᴰ finish_authentication (refuse_ssl ∷ [])
  refusing_ssl = only_others _ _ (λ e. cc) Memᴰ.not-nil

  starting :
      (parameters : List (Text × Text))
      → ¬ Memᴰ finish_authentication (
          save_startup_parameters parameters
          ∷ set_authentication_in_progress
          ∷ ask_cleartext_password
          ∷ [])
  starting parameters =
      only_others _ _ (λ e. cc) (only_others _ _ (λ e. cc) (only_others _ _ (λ e. cc) Memᴰ.not-nil))

  let_in :
      (user : Option Text) (message : FrontendMessage)
      → LetsIn (on_startup from_utf8 store user message)
      → IsLogin user message
  unfolding on_startup
  let_in user ssl_request (actions, e, m) =
      absurd (refusing_ssl (subst (Memᴰ finish_authentication) (sym (ok-injective e)) m))
  let_in user (startup parameters) (actions, e, m) =
      absurd (starting parameters (subst (Memᴰ finish_authentication) (sym (ok-injective e)) m))
  let_in user other_message (actions, e, m) =
      absurd (Memᴰ.not-nil (subst (Memᴰ finish_authentication) (sym (ok-injective e)) m))
  let_in none (password_message_family message) (actions, e, m) =
      let (p, read, h) = >>=-eq-ok (password_of from_utf8 message) _ e in unfold authenticate in cc
  let_in (some user_name) (password_message_family message) (actions, e, m) =
      let (p, read, h) = >>=-eq-ok (password_of from_utf8 message) _ e in
      let (user, found, verified) =
        is_valid-true p (R.find_by_username user_name store)
          (authenticated user_name p (actions, h, m)) in
      (p, user, read, found, verified)

  IsLogin-let_in :
      (user : Option Text) (message : FrontendMessage)
      → IsLogin user message
      → LetsIn (on_startup from_utf8 store user message)
  unfolding on_startup authenticate is_valid is_verified
  IsLogin-let_in none ssl_request h = absurd h
  IsLogin-let_in none (startup parameters) h = absurd h
  IsLogin-let_in none (password_message_family m) h = absurd h
  IsLogin-let_in none other_message h = absurd h
  IsLogin-let_in (some n) ssl_request h = absurd h
  IsLogin-let_in (some n) (startup parameters) h = absurd h
  IsLogin-let_in (some n) other_message h = absurd h
  IsLogin-let_in (some n) (password_message_family m) (p, user, e, found, verified) =
      (finish_authentication ∷ [], rw (e, found, verified) refl, Memᴰ.head refl)

  -- `on_startup` finishes the authentication, with or without other actions, for exactly one kind of
  -- message: one with a password, when the metadata names an account that the repository has, and the
  -- password verifies against its hash.
  pub on_startup-IsLogin :
      (user : Option Text) (message : FrontendMessage)
      → LetsIn (on_startup from_utf8 store user message) ↔ IsLogin user message
  on_startup-IsLogin user message = (let_in user message, IsLogin-let_in user message)
