-- ===== src/Tests/Wire.antt =====
-- The Postgres wire server, each property at one input.
use maysemantic.Pgwire.Query.Registered.{run_sql-answer_of, answer_of}
use maysemantic.Pgwire.Server.{new, processor_of}
use maysemantic.Models.State.{insert_model, clone, get_all_models, load_dir, read_model}
use maysemantic.Models.Core.{SemanticModel, validate, validate_name, validate_bare_sql}
use maysemantic.Tests.Fixtures.{shop, shop_model}
use maysemantic.Connectors.{WarehouseConnector}
use maysemantic.Pgwire.Query.Rows.{answer_rows_iff, columns, shown, width, AllFit}
use maysemantic.Pgwire.Startup.Sessions.{on_startup-IsLogin, IsLogin, LetsIn}
use maysemantic.Compiler.Request.{SemanticRequest}
use maysemantic.Pgwire.Query.Semantic.{do_query-compile}
use maysemantic.Dialects.Quote.{dialect_for}
use maysemantic.Auth.Store.{pg_user_repository}
use maysemantic.Prelude.{
  ltb, if◌then◌else◌, err, insert, ◌⊎◌, split, to_ascii_upper, all, is_ascii_lowercase, traverse,
  to_ascii_lower, ◌↔◌, Option, ◌≡◌, ℕ, Text, List, is_empty, none, some, ok, [], ◌∷◌, ◌==◌, refl,
  trim, map, positive, strip_prefix, str,
}
use maysemantic.Connectors.{QueryResult, Row, int64, null, text}
use maysemantic.Pgwire.Startup.{on_startup, FrontendMessage, password, password_message_family}
use maysemantic.Pgwire.Query.{
  Encoder, written, out_of_range, panicked, run_sql, is_select_1, is_version_query, is_setup,
  answer_rows, QueryProcessor, query, do_query,
}
use maysemantic.Tests.Servers.{marked, alice, alice_row, show_id}
use maysemantic.Tests.Security.{floats, shop_plain_sql, shop_compiled_plain}
use maysemantic.Tests.Graphs.{list_graph}
use maysemantic.Tests.Fixtures.{total_request, shop_models}

abbrev from_ascii : List ℕ → Option Text
from_ascii bytes = some bytes

abbrev password_message : FrontendMessage
password_message = password_message_family (password alice)

on_startup-IsLogin_example :
    LetsIn ⦃R = pg_user_repository 7 200⦄ from_ascii (alice_row ∷ []) (
      on_startup ⦃R = pg_user_repository 7 200⦄ from_ascii
        (alice_row ∷ [])
        (some alice)
        password_message)
    ↔ IsLogin ⦃R = pg_user_repository 7 200⦄ from_ascii
        (alice_row ∷ [])
        (some alice)
        password_message
on_startup-IsLogin_example =
    on_startup-IsLogin ⦃R = pg_user_repository 7 200⦄ from_ascii (alice_row ∷ []) (some alice)
      password_message

-- writes every value that has a column
instance abbrev pub row_encoder : Encoder
row_encoder = record {
  encode_field = λ columns before t. if ltb before columns then written else out_of_range;
  beyond = λ columns before t e. rw e refl;
}

abbrev two_rows : List Row
two_rows = (int64 (positive 1) ∷ null ∷ []) ∷ (int64 (positive 2) ∷ text alice ∷ []) ∷ []

abbrev yielded_rows : QueryResult
yielded_rows = map ok two_rows

answer_rows_iff_example :
    (answer_rows show_id yielded_rows
      ≡ ok (query (columns show_id two_rows) (shown show_id two_rows)))
    ↔ ((rs : List Row) × (yielded_rows ≡ map ok rs)
        × AllFit show_id (width show_id rs) rs
        × (query (columns show_id two_rows) (shown show_id two_rows)
            ≡ query (columns show_id rs) (shown show_id rs)))
answer_rows_iff_example =
    answer_rows_iff show_id yielded_rows (query (columns show_id two_rows) (shown show_id two_rows))

-- a row that is wider than the first
wider_row_panics : answer_rows show_id (ok [] ∷ ok (null ∷ []) ∷ []) ≡ err panicked
unfolding answer_rows
wider_row_panics = refl

abbrev read_total : Text → Option SemanticRequest
read_total json = some total_request

abbrev processor : QueryProcessor (Unit {0})
processor = record {
  state = record { models = shop_models; graph_cache = none };
  connectors = record { connectors = [] };
  dialect_kind = str "postgres";
}

do_query-compile_example :
    do_query read_total show_id processor (str " SEMANTIC {};")
    ≡ do_query read_total show_id processor shop_plain_sql
unfolding trim is_empty strip_prefix str dialect_for ◌==◌ to_ascii_lower
do_query-compile_example =
    do_query-compile read_total show_id processor (str " SEMANTIC {};") (str "{};") shop_plain_sql
      total_request refl refl shop_compiled_plain refl refl refl

abbrev two_row_connector : WarehouseConnector
two_row_connector = record { execute = λ sql. ok yielded_rows }

abbrev read_shop : Text → Option SemanticModel
read_shop yaml = some shop_model

abbrev started_processor : QueryProcessor (Unit {0})
started_processor = processor_of read_shop (some shop ∷ []) two_row_connector

run_sql-answer_of_example :
    (get_all_models started_processor.state ≡ [])
    ⊎ (run_sql show_id started_processor (str "SELECT 2")
        ≡ answer_of show_id two_row_connector (str "SELECT 2"))
unfolding is_setup is_version_query is_select_1 str ◌==◌ to_ascii_upper strip_prefix
run_sql-answer_of_example =
    run_sql-answer_of show_id two_row_connector (Unit {0}) read_shop (some shop ∷ [])
      (str "SELECT 2") (refl, refl, refl)

-- the shop's model is loaded
started_models : get_all_models started_processor.state ≡ shop_model ∷ []
unfolding processor_of load_dir traverse read_model validate validate_name is_ascii_lowercase all
    validate_bare_sql split get_all_models new insert_model insert clone
started_models = refl
