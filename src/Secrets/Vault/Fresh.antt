-- ===== src/Secrets/Vault/Fresh.antt =====
-- How old a secret may be: the cache of may_secrets/src/providers/vault.rs over a sequence of calls.
use maysemantic.Prelude.{
  eq_iff, ◌-◌, lookup-insert, ◌==◌, sym, ltb, refl, Bool-cases, subst, insert, Bool, Result, ◌+◌,
  List, inl, inr, true, false,
}
use maysemantic.Secrets.Config.{VaultAuth, token, app_role}
use maysemantic.Prelude.{
  text_key, ok, err, some, none, ok, ◌≡◌, none, arith, lookup, ◌≤◌, some, Option, Text, ℕ,
}
use maysemantic.Secrets.Vault.{
  is_refused, SecretsError, live_token, login, is_live, get_token, read_with, serve, keep_token,
  reuse_or_login, token_by, settle, live_secret, get_secret, secret_url, read_answer, new,
  DwhSecret, VaultState, VaultConfig, Vault,
}

module _ (V : Vault) (config : VaultConfig) where
  -- Vault answered a reading of this name at this time with this secret.
  abbrev pub WasRead : Text → DwhSecret → ℕ → Type 0
  WasRead name secret ts =
      (token : Text) × (read_answer V config name (V.read ts (secret_url V config name) token)
        ≡ ok secret)

  -- what the cache holds at a name
  abbrev pub EntryRead : ℕ → Text → Option (DwhSecret × ℕ) → Type 0
  EntryRead now name none = Unit
  EntryRead now name (some (secret, ts)) = WasRead name secret ts × (ts ≤ now)

  -- Every secret of the cache was read from Vault, at the time that it carries.
  abbrev pub IsRead : ℕ → VaultState → Type 0
  IsRead now s = (name : Text) → EntryRead now name (lookup name s.cache)

  -- The calls of `get_secret` so far, each no earlier than those before it.
  pub data Calls : ℕ → VaultState → Type 0 where
    start : (now : ℕ) → Calls now new
    call :
        {before : ℕ} {s : VaultState} (now : ℕ) (name : Text)
        → before ≤ now
        → Calls before s
        → Calls now (get_secret V config now name s).1

  EntryRead-later :
      (before now : ℕ) (name : Text) (entry : Option (DwhSecret × ℕ))
      → before ≤ now
      → EntryRead before name entry
      → EntryRead now name entry
  EntryRead-later before now name none le h = tt
  EntryRead-later before now name (some (secret, ts)) le h = (h.0, omega arith)

  -- a lookup in the cache that was stored into
  EntryRead-insert :
      (now : ℕ) (name n : Text) (secret : DwhSecret) (cache : List (Text × (DwhSecret × ℕ)))
      → WasRead name secret now
      → EntryRead now n (lookup n cache)
      → EntryRead now n (lookup n (insert name (secret, now) cache))
  EntryRead-insert now name n secret cache w h = elim (Bool-cases (name == n)) [
    | inl e ↦
        rw (lookup-insert n name (secret, now) cache, e)
          (subst (λ m. WasRead m secret now) ((eq_iff name n).0 e) w, omega arith)
    | inr e ↦ rw (lookup-insert n name (secret, now) cache, e) h
  ]

  keep_token-cache :
      (now : ℕ) (s : VaultState) (r : Result SecretsError Text)
      → (keep_token now s r).1.cache ≡ s.cache
  unfolding keep_token
  keep_token-cache now s (ok t) = refl
  keep_token-cache now s (err e) = refl

  reuse-cache :
      (now : ℕ) (r p : Text) (s : VaultState) (live : Option Text)
      → (reuse_or_login V config now r p s live).1.cache ≡ s.cache
  unfolding reuse_or_login
  reuse-cache now r p s (some t) = refl
  reuse-cache now r p s none = keep_token-cache now s (login V config now r p)

  token_by-cache :
      (now : ℕ) (s : VaultState) (auth : VaultAuth)
      → (token_by V config now s auth).1.cache ≡ s.cache
  unfolding token_by
  token_by-cache now s (token t) = refl
  token_by-cache now s (app_role r p) =
      reuse-cache now r p s (live_token config.token_ttl_secs now s.approle_token)

  settle-IsRead :
      (now : ℕ) (name : Text) (refused : Bool) (r : Result SecretsError DwhSecret) (s : VaultState)
      → ((secret : DwhSecret) → r ≡ ok secret → WasRead name secret now)
      → IsRead now s
      → IsRead now (settle V config now name refused r s).1
  unfolding settle
  settle-IsRead now name refused (ok secret) s w h n =
      EntryRead-insert now name n secret s.cache (w secret refl) (h n)
  settle-IsRead now name true (err e) s w h n = h n
  settle-IsRead now name false (err e) s w h n = h n

  read_with-IsRead :
      (now : ℕ) (name : Text) (r : Result SecretsError Text) (s : VaultState)
      → IsRead now s
      → IsRead now (read_with V config now name (r, s)).1
  unfolding read_with
  read_with-IsRead now name (err e) s h = h
  read_with-IsRead now name (ok t) s h =
      let answer = V.read now (secret_url V config name) t in
      settle-IsRead now name (is_refused V config answer) (read_answer V config name answer) s
        (λ secret e. (t, e)) h

  serve-IsRead :
      (now : ℕ) (name : Text) (live : Option DwhSecret) (s : VaultState)
      → IsRead now s
      → IsRead now (serve V config now name live s).1
  unfolding serve get_token
  serve-IsRead now name (some secret) s h = h
  serve-IsRead now name none s h =
      read_with-IsRead now name (get_token V config now s).0 (get_token V config now s).1 (λ n.
        subst (λ c. EntryRead now n (lookup n c)) (sym (token_by-cache now s config.auth)) (h n))

  Calls-IsRead : {now : ℕ} {s : VaultState} → Calls now s → IsRead now s
  unfolding get_secret new lookup
  Calls-IsRead (start now) n = tt
  Calls-IsRead (call {before = before} {s = s} now name le calls) n =
      serve-IsRead now name (live_secret V config now (lookup name s.cache)) s
        (λ m. EntryRead-later before now m (lookup m s.cache) le (Calls-IsRead calls m)) n

  -- the secret that a call gives, with the time of its reading
  abbrev pub IsFresh : ℕ → Text → DwhSecret → ℕ → Type 0
  IsFresh now name secret ts =
      WasRead name secret ts × (ts ≤ now) × (now ≤ ts + config.cache_ttl_secs)

  settle-ok :
      (now : ℕ) (name : Text) (refused : Bool) (r : Result SecretsError DwhSecret)
      (s s' : VaultState) (secret : DwhSecret)
      → settle V config now name refused r s ≡ (ok secret, s')
      → r ≡ ok secret
  unfolding settle
  settle-ok now name refused (ok x) s s' secret h = ground arith
  settle-ok now name refused (err e) s s' secret h = ground arith

  read_with-IsFresh :
      (now : ℕ) (name : Text) (r : Result SecretsError Text) (s s' : VaultState)
      (secret : DwhSecret)
      → read_with V config now name (r, s) ≡ (ok secret, s')
      → IsFresh now name secret now
  unfolding read_with
  read_with-IsFresh now name (err e) s s' secret h = ground arith
  read_with-IsFresh now name (ok t) s s' secret h =
      let answer = V.read now (secret_url V config name) t in
      (
        (
          t,
          settle-ok now name (is_refused V config answer) (read_answer V config name answer) s s'
              secret h,
        ),
        omega arith,
        omega arith,
      )

  serve-IsFresh :
      (now : ℕ) (name : Text) (entry : Option (DwhSecret × ℕ)) (s s' : VaultState)
      (secret : DwhSecret)
      → EntryRead now name entry
      → serve V config now name (live_secret V config now entry) s ≡ (ok secret, s')
      → (ts : ℕ) × IsFresh now name secret ts
  unfolding serve live_secret is_live
  serve-IsFresh now name none s s' secret w h = (
    now,
    read_with-IsFresh now name (get_token V config now s).0 (get_token V config now s).1 s' secret
        h,
  )
  serve-IsFresh now name (some (kept, ts)) s s' secret w h =
      elim (Bool-cases (ltb (now - ts) config.cache_ttl_secs)) [
        | inl e ↦
            let same : kept ≡ secret = ground arith in
            (ts, (subst (λ x. WasRead name x ts) same w.0, w.1, ground arith))
        | inr e ↦ (
          now,
          read_with-IsFresh now name (get_token V config now s).0 (get_token V config now s).1 s'
              secret (rw e at h),
        )
      ]

  -- A secret that `get_secret` gives was read from Vault, under its name, no longer ago than the cache
  -- keeps one: after any calls before it, the clock not going back.
  pub get_secret-IsFresh :
      (before now : ℕ) (name : Text) (s s' : VaultState) (secret : DwhSecret)
      → Calls before s
      → before ≤ now
      → get_secret V config now name s ≡ (ok secret, s')
      → (ts : ℕ) × IsFresh now name secret ts
  unfolding get_secret
  get_secret-IsFresh before now name s s' secret calls le h =
      serve-IsFresh now name (lookup name s.cache) s s' secret
        (EntryRead-later before now name (lookup name s.cache) le (Calls-IsRead calls name)) h
