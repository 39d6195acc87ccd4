-- ===== src/Connectors/BigQuery/Token/Manager.antt =====
-- The manager of the account in the states of `BigQueryConnector`, may_connectors/src/dwh/bigquery.rs.
use maysemantic.Connectors.BigQuery.Token.{
  BigQueryState, Gcp, new, fetch_unless, keep_fetched, live_token, set_manager, with_account,
  with_manager, unless_live, get_token, fetch_or_refresh_token,
}
use maysemantic.Connectors.{ConnectorError}
use maysemantic.Connectors.Snowflake.Token.{Secrets}
use maysemantic.Prelude.{
  ◌∙◌, arith, Option-cases, subst, inl, inr, sym, refl, Result, Text, ◌≡◌, Option, ℕ, ok, err, some,
  none, ◌⊎◌,
}

module _ ⦃G : Gcp⦄ where
  -- A token is cached only where there is a manager that can renew it.
  abbrev pub IsManaged : BigQueryState → Type 0
  IsManaged s = (s.token_cache ≡ none) ⊎ ((account : Text) × (s.auth_manager ≡ some account))

  -- the states that calls at any times, with any secrets, make
  pub data Calls : BigQueryState → Type 0 where
    start : Calls new
    call :
        {s : BigQueryState} (secrets : Secrets) (secret_name : Text) (now : ℕ)
        → Calls s
        → Calls (get_token secrets secret_name now s).1
    refresh :
        {s : BigQueryState} (account : Text) (now : ℕ)
        → s.auth_manager ≡ some account
        → Calls s
        → Calls (fetch_or_refresh_token now account s).1

  -- the manager of the account, where the state has one
  abbrev HasManager : BigQueryState → Type 0
  HasManager s = (account : Text) × (s.auth_manager ≡ some account)

  fetch_unless-manager :
      (now : ℕ) (account : Text) (s : BigQueryState) (live : Option Text)
      → (fetch_unless now account s live).1.auth_manager ≡ s.auth_manager
  unfolding fetch_unless
  fetch_unless-manager now account s (some t) = refl
  fetch_unless-manager now account s none = kept (G.token account now)
    where
      kept : (r : Option (Text × ℕ)) → (keep_fetched s r).1.auth_manager ≡ s.auth_manager
      kept none = unfold keep_fetched in refl
      kept (some (t, e)) = unfold keep_fetched in refl

  fetch-HasManager :
      (now : ℕ) (account : Text) (s : BigQueryState)
      → HasManager s
      → HasManager (fetch_or_refresh_token now account s).1
  unfolding fetch_or_refresh_token
  fetch-HasManager now account s (a, e) =
      (a, fetch_unless-manager now account s (live_token now s.token_cache) ∙ e)

  with_account-IsManaged :
      (now : ℕ) (s : BigQueryState) (r : Result ConnectorError Text)
      → IsManaged s
      → IsManaged (with_account now s r).1
  unfolding with_account set_manager
  with_account-IsManaged now s (err e) h = h
  with_account-IsManaged now s (ok account) h =
      inr (fetch-HasManager now account (set_manager s account) (account, refl))

  with_manager-IsManaged :
      (secrets : Secrets) (secret_name : Text) (now : ℕ) (s : BigQueryState) (m : Option Text)
      → m ≡ s.auth_manager
      → IsManaged s
      → IsManaged (with_manager secrets secret_name now s m).1
  unfolding with_manager
  with_manager-IsManaged secrets secret_name now s (some account) e h =
      inr (fetch-HasManager now account s (account, sym e))
  with_manager-IsManaged secrets secret_name now s none e h = with_account-IsManaged now s _ h

  unless_live-IsManaged :
      (secrets : Secrets) (secret_name : Text) (now : ℕ) (s : BigQueryState) (live : Option Text)
      → IsManaged s
      → IsManaged (unless_live secrets secret_name now s live).1
  unfolding unless_live
  unless_live-IsManaged secrets secret_name now s (some t) h = h
  unless_live-IsManaged secrets secret_name now s none h =
      with_manager-IsManaged secrets secret_name now s s.auth_manager refl h

  Calls-IsManaged : {s : BigQueryState} → Calls s → IsManaged s
  unfolding get_token new
  Calls-IsManaged start = inl refl
  Calls-IsManaged (call {s = s} secrets secret_name now calls) =
      unless_live-IsManaged secrets secret_name now s (live_token now s.token_cache)
        (Calls-IsManaged calls)
  Calls-IsManaged (refresh {s = s} account now e calls) =
      inr (fetch-HasManager now account s (account, e))

  with_account-HasManager :
      (now : ℕ) (s s' : BigQueryState) (r : Result ConnectorError Text) (t : Text)
      → with_account now s r ≡ (ok t, s')
      → HasManager s'
  unfolding with_account set_manager
  with_account-HasManager now s s' (err e) t h = ground arith
  with_account-HasManager now s s' (ok account) t h =
      subst (λ (p : Result ConnectorError Text × BigQueryState). HasManager p.1) h
        (fetch-HasManager now account (set_manager s account) (account, refl))

  with_manager-HasManager :
      (secrets : Secrets) (secret_name : Text) (now : ℕ) (s s' : BigQueryState) (m : Option Text)
      (t : Text)
      → m ≡ s.auth_manager
      → with_manager secrets secret_name now s m ≡ (ok t, s')
      → HasManager s'
  unfolding with_manager
  with_manager-HasManager secrets secret_name now s s' (some account) t e h =
      subst (λ (p : Result ConnectorError Text × BigQueryState). HasManager p.1) h
        (fetch-HasManager now account s (account, sym e))
  with_manager-HasManager secrets secret_name now s s' none t e h =
      with_account-HasManager now s s' _ t h

  live-HasManager :
      (s s' : BigQueryState) (now : ℕ) (live t : Text)
      → live_token now s.token_cache ≡ some live
      → ◌≡◌ {A = Result ConnectorError Text × BigQueryState} (ok live, s) (ok t, s')
      → IsManaged s
      → HasManager s'
  unfolding live_token
  live-HasManager s s' now live t l h (inl e) = ground arith
  live-HasManager s s' now live t l h (inr m) =
      subst (λ (p : Result ConnectorError Text × BigQueryState). HasManager p.1) h m

  -- Where `get_token` gives a token, the account's manager is in place, so that `execute`, which takes
  -- it out right afterwards, does not panic: after any calls, for a connector that began empty.
  pub get_token-HasManager :
      (secrets : Secrets) (secret_name : Text) (now : ℕ) (s s' : BigQueryState) (t : Text)
      → Calls s
      → get_token secrets secret_name now s ≡ (ok t, s')
      → (account : Text) × (s'.auth_manager ≡ some account)
  unfolding get_token unless_live
  get_token-HasManager secrets secret_name now s s' t calls h =
      elim (Option-cases (live_token now s.token_cache)) [
        | inl e ↦
            with_manager-HasManager secrets secret_name now s s' s.auth_manager t refl (rw e at h)
        | inr (live, e) ↦ live-HasManager s s' now live t e (rw e at h) (Calls-IsManaged calls)
      ]
