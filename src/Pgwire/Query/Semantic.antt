-- ===== src/Pgwire/Query/Semantic.antt =====
-- A semantic query over the wire, may_pgwire/src/handler.rs: the compiled SQL takes the way of a query
-- that is passed through.

use maysemantic.Pgwire.Query.{
  Encoder, run_sql, dialect_for, compile, QueryProcessor, compile_request, actual_query, do_query,
}
use maysemantic.Compiler.Request.{SemanticRequest}
use maysemantic.Ast.Combiners.{Floats}
use maysemantic.Graph.Engine.{DiGraph}
use maysemantic.Prelude.{
  is_empty, sym, strip_prefix-append, ◌++◌, ◌∙◌, strip_prefix, is_empty, ◌++◌, ◌≡◌, trim, ℕ, Option,
  Text, false, str, refl, ok, some, none,
}

module _ ⦃D : DiGraph⦄ ⦃F : Floats⦄ ⦃E : Encoder⦄ (read_request : Text → Option SemanticRequest)
    (show_f64 : ℕ → Text) where
  semantic_run :
      {G : Type 0} (q : QueryProcessor G) (input json_body sql : Text) (request : SemanticRequest)
      → trim input ≡ str "SEMANTIC " ++ json_body
      → read_request json_body ≡ some request
      → compile q.state.models (dialect_for q.dialect_kind) request none ≡ ok sql
      → do_query read_request show_f64 q input ≡ run_sql show_f64 q sql
  unfolding do_query actual_query compile_request
  semantic_run q input json_body sql request i r c =
      let full : is_empty (str "SEMANTIC " ++ json_body) ≡ false = unfold is_empty str in refl in
      rw (i, full, strip_prefix-append (str "SEMANTIC ") json_body, r, c) refl

  plain_run :
      {G : Type 0} (q : QueryProcessor G) (sql : Text)
      → trim sql ≡ sql
      → is_empty sql ≡ false
      → strip_prefix (str "SEMANTIC ") sql ≡ none
      → do_query read_request show_f64 q sql ≡ run_sql show_f64 q sql
  unfolding do_query actual_query
  plain_run q sql t e n = rw (t, e, n) refl

  -- A query `SEMANTIC …` whose JSON is a request that compiles, with no user context and in the dialect of
  -- the processor, is answered as the compiled SQL sent by itself: for SQL that is trimmed, not empty, and
  -- does not itself begin with `SEMANTIC `.
  pub do_query-compile :
      {G : Type 0} (q : QueryProcessor G) (input json_body sql : Text) (request : SemanticRequest)
      → trim input ≡ str "SEMANTIC " ++ json_body
      → read_request json_body ≡ some request
      → compile q.state.models (dialect_for q.dialect_kind) request none ≡ ok sql
      → trim sql ≡ sql
      → is_empty sql ≡ false
      → strip_prefix (str "SEMANTIC ") sql ≡ none
      → do_query read_request show_f64 q input ≡ do_query read_request show_f64 q sql
  do_query-compile q input json_body sql request i r c t e n =
      semantic_run q input json_body sql request i r c ∙ sym (plain_run q sql t e n)
