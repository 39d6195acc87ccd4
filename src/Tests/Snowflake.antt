-- ===== src/Tests/Snowflake.antt =====
-- The connector to Snowflake, each property at one input.
use maysemantic.Prelude.{
  is_ascii_digit, to_ascii_upper, ◌<◌, ◌≡◌, read_digits, ◌≤◌, ◌+◌, ℕ, parse_i64, length, none, some,
  ok, [], ◌∷◌, ◌==◌, refl, positive, str,
}
use maysemantic.Connectors.{EndsAtError, response, timed_out, int64, text}
use maysemantic.Json.{object, field, string, end, cons, nil}
use maysemantic.Secrets.{key_pair}
use maysemantic.Models.State.{head?}
use maysemantic.Connectors.Snowflake.{map_row, Formats, field_type_of, map_cell}
use maysemantic.Connectors.Snowflake.Types.{count, HasTypes, map_row-HasTypes}
use maysemantic.Connectors.Snowflake.Poll.{total, poll_loop, poll_loop-IsDone, IsDone, max_retries}
use maysemantic.Connectors.Snowflake.Execute.{Server, stream}
use maysemantic.Connectors.Snowflake.Execute.Errors.{stream-EndsAtError}
use maysemantic.Connectors.Snowflake.Token.{
  get_jwt_token, get_jwt_token-WasSigned, WasSigned, Rsa, Secrets, start, call,
}

-- Bit patterns are read from the first code point; base64 is left as it is.
instance abbrev formats : Formats
formats = record { parse_f64 = head?; decode_base64 = λ s. some s }

map_row-HasTypes_example :
    HasTypes (str "FIXED" ∷ []) (none ∷ []) (int64 (positive 42) ∷ text (b'x' ∷ []) ∷ [])
    × (length (int64 (positive 42) ∷ text (b'x' ∷ []) ∷ [])
        ≡ count (cons (string (str "42")) (cons (string (b'x' ∷ [])) nil)))
unfolding map_row map_cell field_type_of parse_i64 read_digits str ◌==◌ to_ascii_upper
    is_ascii_digit
map_row-HasTypes_example =
    map_row-HasTypes (cons (string (str "42")) (cons (string (b'x' ∷ [])) nil)) []
      (str "FIXED" ∷ []) (none ∷ []) (int64 (positive 42) ∷ text (b'x' ∷ []) ∷ []) refl

-- A server that accepts for ever.
poll_loop-IsDone_example :
    let (result, delays) = poll_loop (λ k. response 202 [] none) 11 0 500 in
    IsDone result × (length delays ≤ max_retries) × (total delays ≤ 151_500)
poll_loop-IsDone_example = poll_loop-IsDone (λ k. response 202 [] none)

-- A server that accepts the statement `h`, and then fails.
abbrev failing_server : Server
failing_server = record {
  post = λ url t sql.
      response 202 [] (some (object (field (str "statementHandle") (string (b'h' ∷ [])) end)));
  get_status = λ url t k. response 500 [] none;
  get_partition = λ url t. timed_out;
}

stream-EndsAtError_example : EndsAtError (stream failing_server [] none [] none [])
stream-EndsAtError_example = stream-EndsAtError failing_server [] none [] none []

instance abbrev plain_rsa : Rsa
plain_rsa = record {
  load = λ pem p. some pem;
  fingerprint = λ k. some k;
  to_pkcs1_der = λ k. some k;
  sign = λ c k. some (c.exp ∷ k);
}

abbrev key_secrets : Secrets
key_secrets = λ n. ok (key_pair [] [] [] none)

get_jwt_token-WasSigned_example : (exp : ℕ) × WasSigned (3600 ∷ []) exp × (100 + 60 < exp)
unfolding get_jwt_token
get_jwt_token-WasSigned_example =
    get_jwt_token-WasSigned key_secrets [] 100 (get_jwt_token key_secrets [] 0 none).1
      (some (record { token = 3600 ∷ []; exp = 3600 })) (3600 ∷ []) (call key_secrets [] 0 start)
      refl
