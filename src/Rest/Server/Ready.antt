-- ===== src/Rest/Server/Ready.antt =====
-- What holds once `main` of may_rest/src/main.rs listens.
use maysemantic.Auth.Store.Seeded.{ensure_admin-is_taken}
use maysemantic.Auth.Store.{ensure_admin, is_taken}
use maysemantic.Prelude.{
  Option-cases, ℕ, Bool, ap, err, refl, arith, inr, ok-injective, eq_iff, get_or, subst, map_err,
  to_ascii_lower, inl, >>=-eq-ok, map, Bool-cases, true, ok, List, ◌≡◌, [], ◌==◌, str, Option, Text,
  any,
}
use maysemantic.Auth.Token
use maysemantic.Models.Core.{SemanticModel}
use maysemantic.Rest.Server.{
  hash_password, Bcrypt, Outcome, connected, Users, after_seed, start, Served, supported_dialects,
  dialect_kind_of, port_of, settings, auth_failed,
}
use maysemantic.Dialects.Quote.{Dialect, dialect_for, postgres, snowflake, big_query, dummy}

-- the name that a dialect is configured by; the dummy has none
abbrev pub name_of : Dialect → Text
name_of postgres = str "postgres"
name_of snowflake = str "snowflake"
name_of big_query = str "bigquery"
name_of dummy = []

named :
    (kind : Text)
    → any (λ d. d == kind) supported_dialects ≡ true
    → name_of (dialect_for kind) ≡ kind
unfolding any
named kind h = elim (Bool-cases (str "postgres" == kind)) [
  | inl e ↦
      subst (λ k. name_of (dialect_for k) ≡ k) ((eq_iff (str "postgres") kind).0 e)
        (unfold dialect_for to_ascii_lower str ◌==◌ in refl)
  | inr e ↦ elim (Bool-cases (str "snowflake" == kind)) [
    | inl f ↦
        subst (λ k. name_of (dialect_for k) ≡ k) ((eq_iff (str "snowflake") kind).0 f)
          (unfold dialect_for to_ascii_lower str ◌==◌ in refl)
    | inr f ↦
        subst (λ k. name_of (dialect_for k) ≡ k) ((eq_iff (str "bigquery") kind).0 (ground arith))
          (unfold dialect_for to_ascii_lower str ◌==◌ in refl)
  ]
]

-- what MAY_DIALECT says, in lower case; Postgres where it is not set
abbrev pub asked_for : (Text → Option Text) → Text
asked_for env = map to_ascii_lower (get_or (str "postgres") (env (str "MAY_DIALECT")))

dialect_kind_of-ok :
    (env : Text → Option Text) (kind : Text)
    → dialect_kind_of env ≡ ok kind
    → name_of (dialect_for kind) ≡ asked_for env
unfolding dialect_kind_of
dialect_kind_of-ok env kind h =
    elim (Bool-cases (any (λ d. d == asked_for env) supported_dialects)) [
      | inl e ↦
          subst (λ k. name_of (dialect_for k) ≡ asked_for env) (ok-injective (rw e at h))
            (named (asked_for env) e)
      | inr e ↦ ground arith
    ]

-- The dialect that the server compiles with is the one that the environment names, and there is an
-- account of the name `admin`.
abbrev pub IsReady : {G : Type 0} → (Text → Option Text) → Served G → Users → Type 0
IsReady env served users =
    (name_of (dialect_for served.app.dialect_kind) ≡ asked_for env)
    × (is_taken (str "admin") users ≡ true)

module _ {G : Type 0} (parse : Text → Option SemanticModel)
    (files : Text → List (Option Text)) where
  settings-named :
      (env : Text → Option Text) (served : Served G)
      → settings parse files env ≡ ok served
      → name_of (dialect_for served.app.dialect_kind) ≡ asked_for env
  unfolding settings
  settings-named env served h =
      let (service, _, h₁) = >>=-eq-ok (map_err auth_failed (Token.new env)) _ h in
      let (kind, k, h₂) = >>=-eq-ok (dialect_kind_of env) _ h₁ in
      let (port, _, h₃) = >>=-eq-ok (port_of env) _ h₂ in
      subst (λ (s : Served G). name_of (dialect_for s.app.dialect_kind) ≡ asked_for env)
        (ok-injective h₃) (dialect_kind_of-ok env kind k)

  after_seed-IsReady :
      (env : Text → Option Text) (seeded : Outcome Users (Unit {0})) (served : Served G)
      (users : Users)
      → (seeded.0 ≡ ok tt → is_taken (str "admin") seeded.1 ≡ true)
      → after_seed parse files env seeded ≡ (ok served, users)
      → IsReady env served users
  unfolding after_seed
  after_seed-IsReady env (err e, after) served users taken h = ground arith
  after_seed-IsReady env (ok _, after) served users taken h = (
    settings-named env served (ap (λ p. p.0) h),
    subst (λ us. is_taken (str "admin") us ≡ true) (ap (λ p. p.1) h) (taken refl),
  )

  -- A server that starts to listen compiles in the dialect that MAY_DIALECT names, in any case of
  -- letters, or that of Postgres where it is not set; a name that is no dialect's, which `dialect_for`
  -- alone would take for Postgres, keeps it from starting. It has an account `admin`. So it is for every
  -- environment and every content of the database.
  pub start-IsReady :
      ⦃B : Bcrypt⦄
      → (env : Text → Option Text) (connect : Text → Bool) (id now : ℕ) (users users' : Users)
        (served : Served G)
      → start parse files env connect id now users ≡ (ok served, users')
      → IsReady env served users'
  unfolding start connected
  start-IsReady env connect id now users users' served h =
      elim (Option-cases (env (str "DATABASE_URL"))) [
        | inl e ↦ ground arith
        | inr (url, e) ↦ elim (Bool-cases (connect url)) [
          | inl f ↦
              after_seed-IsReady env _ served users'
                (λ s.
                  ensure_admin-is_taken hash_password (env (str "MAY_ADMIN_PASSWORD")) id now users
                    _
                    (ap
                      (λ r. (
                        r,
                        (ensure_admin hash_password (env (str "MAY_ADMIN_PASSWORD")) id now
                            users).1,
                      ))
                      s))
                (rw (e, f) at h)
          | inr f ↦ ground arith
        ]
      ]
