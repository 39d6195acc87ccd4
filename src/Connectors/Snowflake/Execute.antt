-- ===== src/Connectors/Snowflake/Execute.antt =====
-- `SnowflakeConnector::execute`, may_connectors/src/dwh/snowflake.rs: what its stream yields. The server
-- is the parameter `Server`; the headers of a request other than the token, and its body other than the
-- statement, are the same in every request.

pub mod Errors
use maysemantic.Json.{as_i64}
use maysemantic.Connectors.Snowflake.Token.{get_jwt_token, Secrets, Rsa, TokenCache}
use maysemantic.Connectors.Snowflake.Poll.{transport_error, stopped, finished, Polled, poll_loop}
use maysemantic.Connectors.Snowflake.{map_row, Formats}
use Prim.Native.String.{String}
use maysemantic.Json
use maysemantic.Json.{nil, cons, array}
use maysemantic.Connectors.Snowflake.Poll.{running}
use maysemantic.Prelude.{
  ◌==◌, nat_eq, not, negative, to_ascii_lower, leb, if◌then◌else◌, show_nat, positive, ◌+◌, ◌++◌, ℕ,
  get_or, Integer, Result, List, Option, Text, str, ok, err, some, none, [], ◌∷◌, zero, suc, map,
  refl, ◌-◌, ◌^◌,
}
use maysemantic.Connectors.{
  is_success, connection_failed, Row, text_of, member, query_failed, timeout, ConnectorError,
  items_of, Answer, QueryResult, Value, Items, timed_out, failed, response,
}

pub record Server : Type 0 where
  -- the URL, the token and the statement
  pub post : Text → Text → Text → Answer Value
  -- the URL, the token, and how many polls came before
  pub get_status : Text → Text → ℕ → Answer Value
  -- the URL of a partition, and the token
  pub get_partition : Text → Text → Answer Value

unfoldable pub base_of : Text → Option Text → Text
unfolding str
base_of account none =
    str "https://" ++ (account ++ str ".snowflakecomputing.com/api/v2/statements")
base_of account (some base) = base ++ str "/api/v2/statements"

-- the names, types and scales of the columns, in three lists
pub record Columns : Type 0 where
  pub names : List Text
  pub types : List Text
  pub scales : List (Option Integer)

-- `.and_then(Value::as_i64)`
integer_of : Option Value → Option Integer
integer_of none = none
integer_of (some value) = as_i64 value

columns_of : Items → Columns
columns_of nil = record { names = []; types = []; scales = [] }
columns_of (cons col cols) =
    let rest = columns_of cols in
    record {
      names = get_or (str "unknown") (text_of (member "name" col)) ∷ rest.names;
      types = get_or (str "TEXT") (text_of (member "type" col)) ∷ rest.types;
      scales = integer_of (member "scale" col) ∷ rest.scales;
    }

-- `json.get(a).and_then(|m| m.get(b))`
member_in : String → String → Value → Option Value
member_in a b json = elim (member a json) [ none ↦ none | some m ↦ member b m ]

items_length : Option Items → ℕ
items_length none = 0
items_length (some nil) = 0
items_length (some (cons x xs)) = suc (items_length (some xs))

module _ ⦃F : Formats⦄ where
  -- the item of one row, before those after it; an error ends the stream
  yield_row : Result ConnectorError Row → QueryResult → QueryResult
  yield_row (ok row) rest = ok row ∷ rest
  yield_row (err e) rest = err e ∷ []

  -- `for row_val in data`, and what follows the loop; an entry that is no array is passed over
  rows_of : Columns → Items → QueryResult → QueryResult
  unfolding yield_row
  rows_of c nil rest = rest
  rows_of c (cons (array cells) rows) rest =
      yield_row (map_row cells c.names c.types c.scales) (rows_of c rows rest)
  rows_of c (cons other rows) rest = rows_of c rows rest

  data_rows : Columns → Option Items → QueryResult → QueryResult
  unfolding rows_of
  data_rows c none rest = rest
  data_rows c (some rows) rest = rows_of c rows rest

fetch_failed : ℕ → Text
fetch_failed idx = str "Failed to fetch partition " ++ (show_nat idx ++ str ": ")

module _ ⦃F : Formats⦄ (S : Server) (account : Text) (base_url : Option Text) (token : Text) where
  partition_answer : Columns → ℕ → Answer Value → QueryResult → QueryResult
  unfolding data_rows fetch_failed
  partition_answer c idx timed_out rest = err timeout ∷ []
  partition_answer c idx (failed e) rest = err (transport_error "Partition fetch failed: " e) ∷ []
  partition_answer c idx (response status err_text none) rest =
      err (
        query_failed (
          if is_success status
          then str "Failed to parse partition JSON: "
          else fetch_failed idx ++ err_text))
      ∷ []
  partition_answer c idx (response status err_text (some json)) rest =
      if is_success status
      then data_rows c (items_of (member "data" json)) rest
      else err (query_failed (fetch_failed idx ++ err_text)) ∷ []

  partition_url : Text → ℕ → Text
  partition_url handle idx =
      base_of account base_url ++ (str "/" ++ (handle ++ (str "?partition=" ++ show_nat idx)))

  -- `for partition_idx in 1..partition_count`, with so many left
  partitions : Columns → Text → ℕ → ℕ → QueryResult
  unfolding partition_answer partition_url
  partitions c handle idx zero = []
  partitions c handle idx (suc left) =
      partition_answer c idx (S.get_partition (partition_url handle idx) token)
        (partitions c handle (idx + 1) left)

  -- from the metadata on
  results_with : Text → Value → Option Items → QueryResult
  unfolding partitions columns_of member_in items_length
  results_with handle json none = []
  results_with handle json (some metadata) =
      let c = columns_of metadata in
      let partition_count =
        items_length (items_of (member_in "resultSetMetaData" "partitionInfo" json)) in
      data_rows c (items_of (member "data" json)) (partitions c handle 1 (partition_count - 1))

  -- from the check of the code on
  results : Text → Value → QueryResult
  unfolding results_with str
  results handle json =
      if map to_ascii_lower (get_or [] (text_of (member "code" json))) == str "failed"
      then err (query_failed (get_or (str "Unknown failure") (text_of (member "message" json))))
        ∷ []
      else results_with handle json (items_of (member_in "resultSetMetaData" "rowType" json))

  after_poll : Text → Polled → QueryResult
  unfolding results
  after_poll handle (finished json) = results handle json
  after_poll handle (stopped e) = err e ∷ []
  after_poll handle running = []

  -- the JSON of a 202 leads to the loop, which eleven passes bring to its end
  accepted : ℕ → Text → QueryResult
  unfolding after_poll poll_loop str
  accepted delay_ms [] = err (query_failed (str "No statementHandle found in 202 response")) ∷ []
  accepted delay_ms (h ∷ hs) =
      after_poll (h ∷ hs)
        (poll_loop (S.get_status (base_of account base_url ++ (str "/" ++ (h ∷ hs))) token) 11 0
          delay_ms).0

  submitted : ℕ → Answer Value → QueryResult
  unfolding accepted
  submitted delay_ms timed_out = err timeout ∷ []
  submitted delay_ms (failed e) = err (connection_failed e) ∷ []
  submitted delay_ms (response status err_text none) =
      err (
        query_failed (
          if is_success status
          then str "Failed to parse JSON response: "
          else str "Initial request failed: " ++ err_text))
      ∷ []
  submitted delay_ms (response status err_text (some json)) =
      if not (is_success status)
      then err (query_failed (str "Initial request failed: " ++ err_text)) ∷ []
      else if nat_eq status 202
      then accepted delay_ms (get_or [] (text_of (member "statementHandle" json)))
      else results (get_or [] (text_of (member "statementHandle" json))) json

  -- the stream, for the token that `get_jwt_token` gives
  unfoldable pub stream : Option ℕ → Text → QueryResult
  unfolding submitted accepted after_poll results results_with partitions partition_answer
      fetch_failed partition_url data_rows rows_of yield_row columns_of integer_of member_in
      items_length str
  stream delay_ms_override sql =
      submitted (get_or 500 delay_ms_override) (S.post (base_of account base_url) token sql)

-- `execute`: the token first, and then the stream
with_token :
    Result ConnectorError Text × TokenCache
    → (Text → QueryResult)
    → Result ConnectorError QueryResult × TokenCache
with_token (err e, cache) f = (err e, cache)
with_token (ok token, cache) f = (ok (f token), cache)

module _ ⦃F : Formats⦄ ⦃R : Rsa⦄ where
  unfoldable pub execute :
      Server
      → Text
      → Option Text
      → Option ℕ
      → Secrets
      → Text
      → ℕ
      → Text
      → TokenCache
      → Result ConnectorError QueryResult × TokenCache
  unfolding with_token
  execute server account base_url delay_ms_override secrets secret_name now sql cache =
      with_token (get_jwt_token secrets secret_name now cache)
        (λ token. stream server account base_url token delay_ms_override sql)
