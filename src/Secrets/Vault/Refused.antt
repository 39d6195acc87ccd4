-- ===== src/Secrets/Vault/Refused.antt =====
-- A token of an AppRole that Vault refuses is not used again: may_secrets/src/providers/vault.rs.

use maysemantic.Prelude.{refl, lookup, ◌≡◌, Option, ℕ, Text, none, ok, err, text_key}
use maysemantic.Json.{Value}
use maysemantic.Secrets.{vault_error}
use maysemantic.Secrets.Config.{VaultConfig, app_role}
use maysemantic.Secrets.Vault.{
  login, keep_token, secret_url, live_secret, VaultState, is_app_role, live_token, reuse_or_login,
  token_by, get_token, is_success, is_refused, read_answer, settle, read_with, serve, get_secret,
  Vault, response,
}

module _ (V : Vault) (config : VaultConfig) where
  -- When Vault answers the reading of a secret that is not cached with 403, and the token came from an
  -- AppRole, the caller is told so, the cached secrets stay, and the next call for a token, at any time,
  -- logs in anew.
  pub get_token-refused :
      (role_id secret_id name : Text) (now later : ℕ) (s s₁ : VaultState) (t body : Text)
      (json : Option Value)
      → config.auth ≡ app_role role_id secret_id
      → live_secret V config now (lookup name s.cache) ≡ none
      → get_token V config now s ≡ (ok t, s₁)
      → V.read now (secret_url V config name) t ≡ response 403 body json
      → let (answer, s') = get_secret V config now name s in
        (answer ≡ err (vault_error 403 body))
        × (s'.cache ≡ s₁.cache)
        × (get_token V config later s'
            ≡ keep_token later s' (login V config later role_id secret_id))
  unfolding get_secret serve read_with settle read_answer is_refused is_success get_token token_by
      reuse_or_login live_token is_app_role
  get_token-refused role_id secret_id name now later s s₁ t body json a l g r =
      rw (l, g, r, a) (refl, refl, refl)
