-- ===== src/Connectors/Snowflake/Token.antt =====
-- `get_jwt_token`, may_connectors/src/dwh/snowflake.rs. The keys, the fingerprint and the signature are
-- the parameter `Rsa`; the provider of the secrets is a function, and time is in seconds.

use maysemantic.Connectors.{connection_failed, ConnectorError}
use Prim.Native.String.{String}
use maysemantic.Prelude.{
  subst, arith, Bool-cases, >>=-eq-ok, ◌<◌, ltb, ok_or, ◌++◌, map_err, ◌+◌, if◌then◌else◌, Result,
  to_ascii_upper, ◌≡◌, str, Text, ℕ, Option, ok, err, some, none, inl, inr, ◌>>=◌, map, refl,
  ok_or-ok,
}
use maysemantic.Secrets.{SecretsError, DwhSecret, key_pair, username_password, service_account_key}

pub record JwtClaims : Type 0 where
  pub iss : Text
  pub sub : Text
  pub iat : ℕ
  pub exp : ℕ

pub record Rsa : Type 0 where
  -- the private key of a PEM text, which a passphrase may protect
  pub load : Text → Option Text → Option Text
  -- `SHA256:` and the digest of the public key
  pub fingerprint : Text → Option Text
  -- the key without its passphrase, as the signing takes it
  pub to_pkcs1_der : Text → Option Text
  pub sign : JwtClaims → Text → Option Text

pub record CachedJwt : Type 0 where
  pub token : Text
  pub exp : ℕ

-- Of the connector, what `get_jwt_token` reads and writes.
abbrev pub TokenCache : Type 0
TokenCache = Option CachedJwt

abbrev pub Secrets : Type 0
Secrets = Text → Result SecretsError DwhSecret

-- an error of the connection, less the text of the error below it
connection_error : String → ConnectorError
connection_error message = connection_failed (str message)

unfoldable pub claims_of : ℕ → Text → Text → Text → JwtClaims
unfolding str
claims_of now account username print =
    let subject = map to_ascii_upper account ++ (str "." ++ map to_ascii_upper username) in
    record { iss = subject ++ (str "." ++ print); sub = subject; iat = now; exp = now + 3600 }

-- `now_usize + 60 < cached.exp`
reusable : ℕ → TokenCache → Option Text
reusable now none = none
reusable now (some c) = if ltb (now + 60) c.exp then some c.token else none

-- a PEM text that cannot be read, with or without a passphrase
parse_error : Option Text → ConnectorError
parse_error none = connection_error "Failed to parse RSA PEM: "
parse_error (some p) = connection_error "Failed to parse encrypted RSA PEM: "

module _ ⦃R : Rsa⦄ where
  -- the token of a secret, with the claims that were signed
  mint : ℕ → DwhSecret → Result ConnectorError Text
  unfolding claims_of
  mint now (key_pair account username private_key passphrase) = do
    key ← ok_or (R.load private_key passphrase) (parse_error passphrase)
    print ← ok_or (R.fingerprint key) (connection_error "Failed to encode public key to DER: ")
    der ← ok_or (R.to_pkcs1_der key) (connection_error "Failed to encode DER: ")
    ok_or (R.sign (claims_of now account username print) der)
        (connection_error "Failed to sign JWT: ")
  mint now _ =
      err (connection_error "Invalid secret type for Snowflake connector, expected KeyPair")

  keep : ℕ → Result ConnectorError Text → TokenCache → Result ConnectorError Text × TokenCache
  keep now (err e) cache = (err e, cache)
  keep now (ok token) cache = (ok token, some (record { token = token; exp = now + 3600 }))

  reuse_or_mint :
      Secrets → Text → ℕ → Option Text → TokenCache → Result ConnectorError Text × TokenCache
  unfolding mint keep connection_error parse_error str
  reuse_or_mint secrets secret_name now (some token) cache = (ok token, cache)
  reuse_or_mint secrets secret_name now none cache =
      keep now
        (map_err (λ _. connection_error "Failed to retrieve secret: ") (secrets secret_name)
          >>= mint now)
        cache

  unfoldable pub get_jwt_token :
      Secrets → Text → ℕ → TokenCache → Result ConnectorError Text × TokenCache
  unfolding reuse_or_mint reusable
  get_jwt_token secrets secret_name now cache =
      reuse_or_mint secrets secret_name now (reusable now cache) cache

  -- a token that was signed over claims that expire at this time
  abbrev pub WasSigned : Text → ℕ → Type 0
  WasSigned token exp =
      (claims : JwtClaims) × (der : Text) × (R.sign claims der ≡ some token) × (claims.exp ≡ exp)

  -- The cached token expires when the cache says so.
  abbrev pub IsSigned : TokenCache → Type 0
  IsSigned none = Unit
  IsSigned (some c) = WasSigned c.token c.exp

  -- the caches that calls at any times, with any secrets, make
  pub data Calls : TokenCache → Type 0 where
    start : Calls none
    call :
        {cache : TokenCache} (secrets : Secrets) (secret_name : Text) (now : ℕ)
        → Calls cache
        → Calls (get_jwt_token secrets secret_name now cache).1

  mint-WasSigned :
      (now : ℕ) (secret : DwhSecret) (token : Text)
      → mint now secret ≡ ok token
      → WasSigned token (now + 3600)
  unfolding mint claims_of
  mint-WasSigned now (key_pair account username private_key passphrase) token h =
      let (key, e, h₁) = >>=-eq-ok (ok_or (R.load private_key passphrase) _) _ h in
      let (print, e₂, h₂) = >>=-eq-ok (ok_or (R.fingerprint key) _) _ h₁ in
      let (der, e₃, h₃) = >>=-eq-ok (ok_or (R.to_pkcs1_der key) _) _ h₂ in
      (claims_of now account username print, der, ok_or-ok _ _ h₃, refl)
  mint-WasSigned now (username_password a b c d e) token h = cc
  mint-WasSigned now (service_account_key j) token h = cc

  keep-IsSigned :
      (now : ℕ) (r : Result ConnectorError Text) (cache : TokenCache)
      → ((token : Text) → r ≡ ok token → WasSigned token (now + 3600))
      → IsSigned cache
      → IsSigned (keep now r cache).1
  unfolding keep
  keep-IsSigned now (ok token) cache w h = w token refl
  keep-IsSigned now (err e) cache w h = h

  minted-WasSigned :
      (now : ℕ) (r : Result ConnectorError DwhSecret) (token : Text)
      → (r >>= mint now) ≡ ok token
      → WasSigned token (now + 3600)
  minted-WasSigned now (ok secret) token h = mint-WasSigned now secret token h
  minted-WasSigned now (err e) token h = cc

  reuse-IsSigned :
      (secrets : Secrets) (secret_name : Text) (now : ℕ) (kept : Option Text) (cache : TokenCache)
      → IsSigned cache
      → IsSigned (reuse_or_mint secrets secret_name now kept cache).1
  unfolding reuse_or_mint
  reuse-IsSigned secrets secret_name now (some token) cache h = h
  reuse-IsSigned secrets secret_name now none cache h =
      keep-IsSigned now _ cache (λ token e. minted-WasSigned now _ token e) h

  Calls-IsSigned : {cache : TokenCache} → Calls cache → IsSigned cache
  unfolding get_jwt_token
  Calls-IsSigned start = tt
  Calls-IsSigned (call {cache = cache} secrets secret_name now calls) =
      reuse-IsSigned secrets secret_name now (reusable now cache) cache (Calls-IsSigned calls)

  keep-ok :
      (now : ℕ) (r : Result ConnectorError Text) (cache cache' : TokenCache) (token : Text)
      → keep now r cache ≡ (ok token, cache')
      → r ≡ ok token
  unfolding keep
  keep-ok now (ok t) cache cache' token h = ground arith
  keep-ok now (err e) cache cache' token h = ground arith

  reused :
      (secrets : Secrets) (secret_name : Text) (now : ℕ) (t token : Text)
      (cache cache' : TokenCache)
      → reuse_or_mint secrets secret_name now (some t) cache ≡ (ok token, cache')
      → t ≡ token
  unfolding reuse_or_mint
  reused secrets secret_name now t token cache cache' h = ground arith

  minted-live :
      (secrets : Secrets) (secret_name : Text) (now : ℕ) (cache cache' : TokenCache) (token : Text)
      → reuse_or_mint secrets secret_name now none cache ≡ (ok token, cache')
      → (exp : ℕ) × WasSigned token exp × (now + 60 < exp)
  unfolding reuse_or_mint
  minted-live secrets secret_name now cache cache' token h =
      (now + 3600, minted-WasSigned now _ token (keep-ok now _ cache cache' token h), omega arith)

  -- The token that `get_jwt_token` gives is signed over claims that expire more than a minute later,
  -- after any calls before it, also when it comes from the cache.
  pub get_jwt_token-WasSigned :
      (secrets : Secrets) (secret_name : Text) (now : ℕ) (cache cache' : TokenCache) (token : Text)
      → Calls cache
      → get_jwt_token secrets secret_name now cache ≡ (ok token, cache')
      → (exp : ℕ) × WasSigned token exp × (now + 60 < exp)
  unfolding get_jwt_token reusable
  get_jwt_token-WasSigned secrets secret_name now none cache' token calls h =
      minted-live secrets secret_name now none cache' token h
  get_jwt_token-WasSigned secrets secret_name now (some c) cache' token calls h =
      elim (Bool-cases (ltb (now + 60) c.exp)) [
        | inl e ↦ (
          c.exp,
          subst (λ t. WasSigned t c.exp)
              (reused secrets secret_name now c.token token (some c) cache' (rw e at h))
              (Calls-IsSigned calls),
          ground arith,
        )
        | inr e ↦ minted-live secrets secret_name now (some c) cache' token (rw e at h)
      ]
