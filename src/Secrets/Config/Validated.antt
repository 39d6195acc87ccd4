-- ===== src/Secrets/Config/Validated.antt =====
-- What the validation of may_secrets/src/config.rs is for: the provider of bootstrap.rs is made.
use maysemantic.Secrets.Config.{
  MaySecretsConfig, VaultAuthMethod, by_token, by_app_role, SecretsMode, managed, byov, VaultAuth,
  token, app_role, VaultConfig, check_auth, auth_of, address_of, is_byov, managed_vault_address,
  validate_config, check_ttl, check_url, validate, bootstrap_secrets_provider, content,
  vault_provider, vault_config, build,
}
use maysemantic.Prelude.{
  Bool-cases, false, >>=-eq-ok, not, arith, is_some, ◌&&◌, Option-cases, ◌≤◌, ◌≡◌, ℕ, Bool, some,
  ok, inl, inr, refl, Text, Option,
}

-- the authentication that a configuration asks for, with nothing missing
abbrev pub Asks : MaySecretsConfig → VaultAuthMethod → VaultAuth → Type 0
Asks config by_token auth = (t : Text) × (config.token ≡ some t) × (auth ≡ token t)
Asks config by_app_role auth =
    (r : Text) × (s : Text) × (config.role_id ≡ some r)
    × (config.secret_id ≡ some s)
    × (auth ≡ app_role r s)

check_auth-auth_of :
    (config : MaySecretsConfig) (method : VaultAuthMethod)
    → check_auth config method ≡ ok tt
    → (auth : VaultAuth) × (auth_of config method ≡ ok auth) × Asks config method auth
unfolding check_auth auth_of
check_auth-auth_of config by_token h = elim (Option-cases config.token) [
  | inl e ↦ ground arith
  | inr (t, e) ↦ (token t, rw e refl, (t, e, refl))
]
check_auth-auth_of config by_app_role h = elim (Option-cases config.role_id) [
  | inl e ↦ ground arith
  | inr (r, e) ↦ elim (Option-cases config.secret_id) [
    | inl f ↦ ground arith
    | inr (s, f) ↦ (app_role r s, rw (e, f) refl, (r, s, e, f, refl))
  ]
]

address_of-ok :
    (config : MaySecretsConfig) (mode : SecretsMode)
    → (is_byov mode && not (is_some config.vault_address)) ≡ false
    → (address : Text) × (address_of config mode ≡ ok address)
unfolding address_of is_byov
address_of-ok config managed h = (managed_vault_address, refl)
address_of-ok config byov h = elim (Option-cases config.vault_address) [
  | inl e ↦ ground arith
  | inr (a, e) ↦ (a, rw e refl)
]

validate_config-ok :
    (config : MaySecretsConfig)
    → validate_config config ≡ ok tt
    → ((is_byov config.mode && not (is_some config.vault_address)) ≡ false)
      × (check_auth config config.auth_method ≡ ok tt)
unfolding validate_config
validate_config-ok config h =
    elim (Bool-cases (is_byov config.mode && not (is_some config.vault_address))) [
      | inl e ↦ ground arith
      | inr e ↦ (e, rw e at h)
    ]

check_ttl-ok : (secs : ℕ) → check_ttl secs ≡ ok tt → 30 ≤ secs
unfolding check_ttl
check_ttl-ok secs h = ground arith

vault_built :
    (parse : Text → Option MaySecretsConfig) (is_url : Text → Bool) (yaml : Text)
    (config : MaySecretsConfig) (address : Text) (auth : VaultAuth)
    → parse yaml ≡ some config
    → validate is_url config ≡ ok tt
    → address_of config config.mode ≡ ok address
    → auth_of config config.auth_method ≡ ok auth
    → bootstrap_secrets_provider parse is_url (content yaml)
      ≡ ok (
          vault_provider (record {
            address = address;
            mount = config.vault_mount;
            auth = auth;
            cache_ttl_secs = config.cache_ttl_secs;
            token_ttl_secs = 3600;
          }))
unfolding bootstrap_secrets_provider vault_config build
vault_built parse is_url yaml config address auth p v a u = rw (p, v, a, u) refl

-- A configuration that passes validation leads to a Vault provider: none of the errors for a missing
-- field that `bootstrap_secrets_provider` provides for can occur. Its authentication is the one that is
-- asked for, and secrets are cached for at least 30 seconds.
pub bootstrap-validate :
    (parse : Text → Option MaySecretsConfig) (is_url : Text → Bool) (yaml : Text)
    (config : MaySecretsConfig)
    → parse yaml ≡ some config
    → validate is_url config ≡ ok tt
    → (vault : VaultConfig) × (bootstrap_secrets_provider parse is_url (content yaml)
        ≡ ok (vault_provider vault))
      × Asks config config.auth_method vault.auth
      × (30 ≤ vault.cache_ttl_secs)
unfolding validate
bootstrap-validate parse is_url yaml config p v =
    let (_, _, v₁) = >>=-eq-ok (check_url is_url config.vault_address) _ v in
    let (_, t, v₂) = >>=-eq-ok (check_ttl config.cache_ttl_secs) _ v₁ in
    let (addressed, authenticated) = validate_config-ok config v₂ in
    let (address, a) = address_of-ok config config.mode addressed in
    let (auth, u, asked) = check_auth-auth_of config config.auth_method authenticated in
    (
      record {
        address = address;
        mount = config.vault_mount;
        auth = auth;
        cache_ttl_secs = config.cache_ttl_secs;
        token_ttl_secs = 3600;
      },
      vault_built parse is_url yaml config address auth p v a u,
      asked,
      check_ttl-ok config.cache_ttl_secs t,
    )
