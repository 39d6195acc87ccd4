-- ===== src/Connectors/BigQuery/Pages.antt =====
-- The stream of `BigQueryConnector::execute`, may_connectors/src/dwh/bigquery.rs: the polls and the
-- pages. The loops have no bound in the source and run on `fuel` here, one for each request; the k-th
-- request takes the token that `fetch_or_refresh_token` then gives, `tokens k`.
pub mod Complete
use Prim.Native.String.{String}
use maysemantic.Connectors.BigQuery.{map_cell, Readers}
use maysemantic.Connectors.{
  is_success, query_failed, timeout, Value, ColumnValue, Answer, ConnectorError, QueryResult, Row,
  timed_out, failed, response,
}
use maysemantic.Prelude.{
  ◌+◌, ok_or, not, if◌then◌else◌, get_or, ◌++◌, Option, List, str, Bool, ℕ, Text, Result, ok, err,
  some, none, [], ◌∷◌, ◌>>=◌, ◌==◌, zero, suc,
}

pub record BqQueryResponse : Type 0 where
  pub job_complete : Bool
  pub job_id : Text
  -- the name and the type of each field
  pub schema : Option (List (Text × Text))
  pub rows : Option (List (List Value))
  pub page_token : Option Text

-- how a stream stops: at its end, by the panic of an index out of bounds, or out of fuel
pub data End : Type 0 where
  finished panicked running : End

abbrev pub Stream : Type 0
Stream = QueryResult × End

pub record Server : Type 0 where
  -- the URL, the token and the statement
  pub post : Text → Text → Text → Answer BqQueryResponse
  -- the number of the request, its URL and the token
  pub get : ℕ → Text → Text → Answer BqQueryResponse

unfoldable pub base_of : Text → Option Text → Text
unfolding str
base_of project_id base_url =
    get_or (str "https://bigquery.googleapis.com") base_url
    ++ (str "/bigquery/v2/projects/" ++ (project_id ++ str "/queries"))

-- what a request is for, by which the messages of its errors differ
pub data Stage : Type 0 where
  for_query for_poll for_next_page : Stage

request_failed : Stage → Text
request_failed for_query = []
request_failed for_poll = str "Poll request failed: "
request_failed for_next_page = str "Next page request failed: "

answer_failed : Stage → Text
answer_failed for_query = []
answer_failed for_poll = str "Poll failed: "
answer_failed for_next_page = str "Next page failed: "

parse_failed : Stage → Text
parse_failed for_query = str "Failed to parse query response: "
parse_failed for_poll = str "Failed to parse poll response: "
parse_failed for_next_page = str "Failed to parse next page: "

-- the response of a request, or its error
unfoldable pub received : Stage → Answer BqQueryResponse → Result ConnectorError BqQueryResponse
unfolding request_failed answer_failed parse_failed str
received stage timed_out = err timeout
received stage (failed e) = err (query_failed (request_failed stage ++ e))
received stage (response status err_text json) =
    if not (is_success status)
    then err (query_failed (answer_failed stage ++ err_text))
    else ok_or json (query_failed (parse_failed stage))

unfoldable pub yield_item : Result ConnectorError Row → Stream → Stream
yield_item r (items, stop) = (r ∷ items, stop)

-- the values of one row, or the error of a value, or none where a cell has no field
pub data Cells : Type 0 where
  values : Row → Cells
  failing : ConnectorError → Cells
  out_of_bounds : Cells

push_cell : Result ConnectorError ColumnValue → Cells → Cells
push_cell (err e) rest = failing e
push_cell (ok v) (values row) = values (v ∷ row)
push_cell (ok v) rest = rest

module _ ⦃R : Readers⦄ where
  unfoldable pub cells_of : List (Text × Text) → List Value → Cells
  unfolding push_cell
  cells_of fields [] = values []
  cells_of [] (cell ∷ cells) = out_of_bounds
  cells_of ((name, field_type) ∷ fields) (cell ∷ cells) =
      push_cell (map_cell cell field_type name) (cells_of fields cells)

  after_cells : Cells → Stream → Stream
  after_cells (values row) rest = yield_item (ok row) rest
  after_cells (failing e) rest = (err e ∷ [], finished)
  after_cells out_of_bounds rest = ([], panicked)

  unfoldable pub page_rows : List (Text × Text) → List (List Value) → Stream → Stream
  unfolding after_cells
  page_rows fields [] rest = rest
  page_rows fields (row ∷ rows) rest =
      after_cells (cells_of fields row) (page_rows fields rows rest)

abbrev pub Tokens : Type 0
Tokens = ℕ → Result ConnectorError Text

module _ ⦃R : Readers⦄ (S : Server) (base : Text) (tokens : Tokens) where
  -- the k-th request of the stream, with the token that `fetch_or_refresh_token` then gives
  unfoldable pub request : ℕ → Stage → Text → Result ConnectorError BqQueryResponse
  unfolding received
  request k stage url = do t ← tokens k; received stage (S.get k url t)

  pub poll_url : BqQueryResponse → Text
  poll_url r = base ++ (str "/" ++ r.job_id)

  pub page_url : BqQueryResponse → Text → Text
  page_url r page_token = poll_url r ++ (str "?pageToken=" ++ page_token)

  -- the continuation at a response, or the end at an error
  next : (BqQueryResponse → Stream) → Result ConnectorError BqQueryResponse → Stream
  next go (err e) = (err e ∷ [], finished)
  next go (ok r) = go r

  next_page : (BqQueryResponse → Stream) → ℕ → BqQueryResponse → Option Text → Stream
  unfolding next request
  next_page go k r none = ([], finished)
  next_page go k r (some page_token) = next go (request k for_next_page (page_url r page_token))

  page : (BqQueryResponse → Stream) → ℕ → BqQueryResponse → Option (List (Text × Text)) → Stream
  unfolding next_page
  page go k r none = ([], finished)
  page go k r (some fields) = page_rows fields (get_or [] r.rows) (next_page go k r r.page_token)

  -- both loops: a round polls a job that is not complete, or yields a page and asks for the next
  unfoldable pub pages : ℕ → ℕ → BqQueryResponse → Stream
  unfolding page request next poll_url page_url str
  pages zero k r = ([], running)
  pages (suc fuel) k r =
      if r.job_complete
      then page (pages fuel (k + 1)) k r r.schema
      else next (pages fuel (k + 1)) (request k for_poll (poll_url r))

module _ ⦃R : Readers⦄ (S : Server) (base : Text) (tokens : Tokens) (fuel : ℕ) where
  started : Result ConnectorError BqQueryResponse → Result ConnectorError Stream
  started (err e) = err e
  started (ok r) = ok (pages S base tokens fuel 0 r)

  -- the request of the query, whose errors are not those of the stream
  unfoldable pub run : Text → Text → Result ConnectorError Stream
  unfolding started str
  run token sql = started (received for_query (S.post base token sql))
