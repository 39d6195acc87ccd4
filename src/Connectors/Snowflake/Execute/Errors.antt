-- ===== src/Connectors/Snowflake/Execute/Errors.antt =====
-- The errors in the stream of `SnowflakeConnector::execute`, may_connectors/src/dwh/snowflake.rs.

use maysemantic.Connectors.Snowflake.Execute.{
  member_in, columns_of, Polled, Columns, results_with, results, partitions, partition_answer,
  rows_of, submitted, data_rows, accepted, after_poll, yield_row, stream, Server,
}
use maysemantic.Connectors.Snowflake.{map_row, Formats}
use maysemantic.Json
use maysemantic.Json.{nil, cons, array}
use maysemantic.Prelude.{
  str, ◌==◌, nat_eq, to_ascii_lower, Bool-cases, ◌+◌, Result, get_or, ℕ, Option, Text, ok, err,
  some, none, [], ◌∷◌, zero, suc, map, refl, inl, inr,
}
use maysemantic.Connectors.{
  member, text_of, items_of, Row, is_success, ConnectorError, QueryResult, Items, Answer, Value,
  EndsAtError, timed_out, failed, response,
}
use maysemantic.Connectors.Snowflake.Poll.{running, stopped, finished}

module _ ⦃F : Formats⦄ where
  yield_row-EndsAtError :
      (r : Result ConnectorError Row) (rest : QueryResult)
      → EndsAtError rest
      → EndsAtError (yield_row r rest)
  unfolding yield_row
  yield_row-EndsAtError (ok row) rest h = h
  yield_row-EndsAtError (err e) rest h = refl

  rows_of-EndsAtError :
      (c : Columns) (rows : Items) (rest : QueryResult)
      → EndsAtError rest
      → EndsAtError (rows_of c rows rest)
  unfolding rows_of
  rows_of-EndsAtError c nil rest h = h
  rows_of-EndsAtError c (cons (array cells) rows) rest h =
      yield_row-EndsAtError (map_row cells c.names c.types c.scales) _
        (rows_of-EndsAtError c rows rest h)
  rows_of-EndsAtError c (cons Json.null rows) rest h = rows_of-EndsAtError c rows rest h
  rows_of-EndsAtError c (cons (Json.bool b) rows) rest h = rows_of-EndsAtError c rows rest h
  rows_of-EndsAtError c (cons (Json.int i) rows) rest h = rows_of-EndsAtError c rows rest h
  rows_of-EndsAtError c (cons (Json.float f) rows) rest h = rows_of-EndsAtError c rows rest h
  rows_of-EndsAtError c (cons (Json.string s) rows) rest h = rows_of-EndsAtError c rows rest h
  rows_of-EndsAtError c (cons (Json.object o) rows) rest h = rows_of-EndsAtError c rows rest h

  data_rows-EndsAtError :
      (c : Columns) (rows : Option Items) (rest : QueryResult)
      → EndsAtError rest
      → EndsAtError (data_rows c rows rest)
  unfolding data_rows
  data_rows-EndsAtError c none rest h = h
  data_rows-EndsAtError c (some rows) rest h = rows_of-EndsAtError c rows rest h

module _ ⦃F : Formats⦄ (S : Server) (account : Text) (base_url : Option Text) (token : Text) where
  partition_answer-EndsAtError :
      (c : Columns) (idx : ℕ) (answer : Answer Value) (rest : QueryResult)
      → EndsAtError rest
      → EndsAtError (partition_answer S account base_url token c idx answer rest)
  unfolding partition_answer
  partition_answer-EndsAtError c idx timed_out rest h = refl
  partition_answer-EndsAtError c idx (failed e) rest h = refl
  partition_answer-EndsAtError c idx (response status t none) rest h = refl
  partition_answer-EndsAtError c idx (response status t (some json)) rest h =
      elim (Bool-cases (is_success status)) [
        | inl e ↦ rw e (data_rows-EndsAtError c (items_of (member "data" json)) rest h)
        | inr e ↦ rw e refl
      ]

  partitions-EndsAtError :
      (c : Columns) (handle : Text) (idx left : ℕ)
      → EndsAtError (partitions S account base_url token c handle idx left)
  unfolding partitions
  partitions-EndsAtError c handle idx zero = tt
  partitions-EndsAtError c handle idx (suc left) =
      partition_answer-EndsAtError c idx _ _ (partitions-EndsAtError c handle (idx + 1) left)

  results_with-EndsAtError :
      (handle : Text) (json : Value) (metadata : Option Items)
      → EndsAtError (results_with S account base_url token handle json metadata)
  unfolding results_with
  results_with-EndsAtError handle json none = tt
  results_with-EndsAtError handle json (some metadata) =
      data_rows-EndsAtError (columns_of metadata) (items_of (member "data" json)) _
        (partitions-EndsAtError (columns_of metadata) handle 1 _)

  results-EndsAtError :
      (handle : Text) (json : Value) → EndsAtError (results S account base_url token handle json)
  unfolding results
  results-EndsAtError handle json =
      elim (Bool-cases
        (map to_ascii_lower (get_or [] (text_of (member "code" json))) == str "failed")) [
          | inl e ↦ rw e refl
          | inr e ↦ rw e (
              results_with-EndsAtError handle json
                (items_of (member_in "resultSetMetaData" "rowType" json)))
        ]

  after_poll-EndsAtError :
      (handle : Text) (p : Polled) → EndsAtError (after_poll S account base_url token handle p)
  unfolding after_poll
  after_poll-EndsAtError handle (finished json) = results-EndsAtError handle json
  after_poll-EndsAtError handle (stopped e) = refl
  after_poll-EndsAtError handle running = tt

  accepted-EndsAtError :
      (delay_ms : ℕ) (handle : Text)
      → EndsAtError (accepted S account base_url token delay_ms handle)
  unfolding accepted
  accepted-EndsAtError delay_ms [] = refl
  accepted-EndsAtError delay_ms (h ∷ hs) = after_poll-EndsAtError (h ∷ hs) _

  submitted-EndsAtError :
      (delay_ms : ℕ) (answer : Answer Value)
      → EndsAtError (submitted S account base_url token delay_ms answer)
  unfolding submitted
  submitted-EndsAtError delay_ms timed_out = refl
  submitted-EndsAtError delay_ms (failed e) = refl
  submitted-EndsAtError delay_ms (response status t none) = refl
  submitted-EndsAtError delay_ms (response status t (some json)) =
      elim (Bool-cases (is_success status)) [
        | inr e ↦ rw e refl
        | inl e ↦ elim (Bool-cases (nat_eq status 202)) [
          | inl w ↦ rw (e, w) (accepted-EndsAtError delay_ms _)
          | inr w ↦ rw (e, w) (results-EndsAtError _ json)
        ]
      ]

  -- The stream ends at its first error, whatever the server answers: no row follows one, and there is
  -- no second error.
  pub stream-EndsAtError :
      (delay_ms_override : Option ℕ) (sql : Text)
      → EndsAtError (stream S account base_url token delay_ms_override sql)
  unfolding stream
  stream-EndsAtError delay_ms_override sql = submitted-EndsAtError (get_or 500 delay_ms_override) _
