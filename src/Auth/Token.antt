-- ===== src/Auth/Token.antt =====
-- may_auth/src/token.rs. jsonwebtoken is the parameter `Jwt`: `encode` signs claims with a
-- secret, and `decode` checks a token at a time, with no leeway.
use maysemantic.Prelude.{inr, parse_unsigned, get_or, inl, arith, ◌>>=◌, Option-cases}
use maysemantic.Auth.{missing_config, invalid_token, token_expired, Role, AuthError, User}
use maysemantic.Prelude.{
  leb, ◌<◌, ◌+◌, ok_or, map_err, ok, err, ltb, if◌then◌else◌, some, ◌≡◌, Result, Option, ℕ, str,
  Text,
}
use maysemantic.Prelude.{◌%◌, ◌^◌, ◌-◌, none, some}

pub record Claims : Type 0 where
  pub sub : Text
  pub role : Role
  pub exp : ℕ

-- `ErrorKind` as `verify` tells it apart
pub data JwtError : Type 0 where
  expired_signature other : JwtError

pub record Jwt : Type 0 where
  pub encode : Text → Claims → Option Text
  pub decode : Text → ℕ → Text → Result JwtError Claims
  -- A token signed with the same secret decodes to its claims until the second of its expiry.
  pub decode-encode :
      (secret : Text) (c : Claims) (t : Text) (now : ℕ)
      → encode secret c ≡ some t
      → decode secret now t ≡ (if ltb c.exp now then err expired_signature else ok c)

pub record TokenService : Type 0 where
  pub secret : Text
  pub expiry_secs : ℕ

-- `TokenService::new`, from the environment
unfoldable pub new : (Text → Option Text) → Result AuthError TokenService
unfolding str
new env = do
  secret ← ok_or (env (str "MAY_JWT_SECRET")) (missing_config (str "MAY_JWT_SECRET"))
  ok (record {
    secret = secret;
    expiry_secs = get_or 3600 (elim (env (str "MAY_JWT_EXPIRY_SECS")) [
      | none ↦ none
      | some s ↦ parse_unsigned (2 ^ 64 - 1) s
    ]);
  })

-- `uuid.to_string()` is the parameter `show_uuid`.
unfoldable pub claims_of : (ℕ → Text) → TokenService → ℕ → User → Claims
claims_of show_uuid service now user = record {
  sub = show_uuid user.id;
  role = user.role;
  exp = (now + service.expiry_secs) % 2 ^ 64;
}

-- `ErrorKind::ExpiredSignature`, or another
unfoldable pub auth_error_of : JwtError → AuthError
auth_error_of expired_signature = token_expired
auth_error_of other = invalid_token

module _ ⦃J : Jwt⦄ where
  unfoldable pub issue : (ℕ → Text) → TokenService → ℕ → User → Result AuthError Text
  unfolding claims_of
  issue show_uuid service now user =
      ok_or (J.encode service.secret (claims_of show_uuid service now user)) invalid_token

  unfoldable pub verify : TokenService → ℕ → Text → Result AuthError Claims
  unfolding auth_error_of
  verify service now token = map_err auth_error_of (J.decode service.secret now token)

  -- A token that the service issued at `then` for a user verifies at `now` exactly until `then`
  -- plus the expiry of the service, where that sum fits in 64 bits: until then it gives the user's
  -- id and role, and afterwards the error is that the token has expired.
  pub verify-issue :
      (show_uuid : ℕ → Text) (service : TokenService) (issued now : ℕ) (user : User) (token : Text)
      → issued + service.expiry_secs < 2 ^ 64
      → issue show_uuid service issued user ≡ ok token
      → verify service now token ≡ (
          if leb now (issued + service.expiry_secs)
          then ok (record {
            sub = show_uuid user.id;
            role = user.role;
            exp = issued + service.expiry_secs;
          })
          else err token_expired)
  unfolding issue verify claims_of auth_error_of
  verify-issue show_uuid service issued now user token fits e =
      let claims = claims_of show_uuid service issued user in
      let small : (issued + service.expiry_secs) % 2 ^ 64 ≡ issued + service.expiry_secs =
        omega arith in
      elim (Option-cases (J.encode service.secret claims)) [
        | inl n ↦ ground arith
        | inr (t, s) ↦ ground (arith, J.decode-encode service.secret claims t now s, small)
      ]
