-- ===== src/Tests/Security.antt =====
-- Row-level security and the whole compiler, at the shop.
use maysemantic.Compiler.Rls.Named.{as_source, IsQueried, queried, in_join, joined}
use mathlib.Core.List.{Memᴰ}
use maysemantic.Prelude.{
  err, contains_char, insert, insert_set, join_with, split, trim, fold_result, any, sort_by,
  replace_char, text_leb, find, upsert, traverse, lookup, filter, ◌==◌, Text, str, Bool, true, none,
  some, [], ◌∷◌, ◌≡◌, refl, ok, is_ok,
}
use maysemantic.Ast.Builder.{
  add_alias, all_aliases, build_from_join_path, build_semantic_group_by, build_semantic_select,
}
use maysemantic.Models.Core.{to_expr}
use maysemantic.Graph.Engine.{build_semantic_graph}
use maysemantic.Graph.Resolver.{
  find_join_path_resolved, node_path, window_edge, window_join, windows,
}
use maysemantic.Compiler.Fanout.{classify}
use maysemantic.Compiler.Request.{has_metric, validate}
use maysemantic.Compiler.MetricResolver.{entity_matches, only_match, resolve, resolve_dimension}
use maysemantic.Compiler.Semantic.Joins.{collect_joins, find_entity, path_entities, push_join}
use maysemantic.Compiler.Semantic.Clauses.{group_by_clause, select_clause, where_clause_of}
use maysemantic.Compiler.Semantic.PreAgg.{pre_aggregate}
use maysemantic.Compiler.Rls.Aliased.{no_joins, all_aliased, inject_aliased}
use maysemantic.Compiler.Rls.Nested.{inject_secures_ctes, ctes_listed}
use maysemantic.Ast.Node
use maysemantic.Ast.Node.{OptNodes, Expr, SqlNode}
use maysemantic.Compiler.Lowering.{
  lower_ctes, lower_measure, lower_exprs, lower_dimension, new, lower_node,
}
use maysemantic.Ast.Combiners.{literal_str, eq_expr, Floats, quote_text}
use maysemantic.Compiler.Rls.{
  inject_cte, gather, add_where, predicates_for_entity, find_entities_for_table, merge_where,
  get_claim, entities_of, inject, policy_predicate,
}
use maysemantic.Compiler.Rls.Enforced.{holds, where_holds}
use maysemantic.Compiler.Rls.Inject.{inject_enforces, where_of}
use maysemantic.Compiler.Rls.Writable.{inject_writable}
use maysemantic.Compiler.Semantic.{find_model, resolve_metric, trunc_expr}
use maysemantic.Compiler.Semantic.Compile.{semantic_query, compile, finish}
use maysemantic.Compiler.Semantic.Compile.Secured.{compile_secured}
use maysemantic.Dialects.Quote.{quote_identifier, quote_schema_qualified, postgres}
use maysemantic.Dialects.Writer.{write_ctes, write_exprs, write_node, generate_sql}
use maysemantic.Tests.Graphs.{list_graph}
use maysemantic.Tests.Lowering.{region_query, lowered_query}
use maysemantic.Tests.Fixtures.{
  key, shop_models, customers_entity, region_policy, user, total_request, decimal_floats,
  customers_table, region,
}

instance abbrev pub floats : Floats
floats = decimal_floats

abbrev region_predicate : Expr
region_predicate =
    Node.binary_op (Node.Expr.column region) (61 ∷ []) (Node.literal (39 ∷ b'x' ∷ 39 ∷ []))

abbrev secured_query : SqlNode
secured_query =
    Node.query Node.absent_list
      (Node.select (Node.cons (Node.aliased (Node.Expr.column region) region) Node.nil))
      (Node.from (Node.table customers_table) Node.end)
      (Node.present (Node.where_clause region_predicate)) Node.absent Node.absent [] none none

query_secured : inject user shop_models lowered_query ≡ ok secured_query
unfolding inject gather fold_result find_entities_for_table sort_by filter ◌==◌
    predicates_for_entity traverse policy_predicate find any get_claim lookup eq_expr str
    literal_str quote_text replace_char add_where entities_of merge_where text_leb
query_secured = refl

inject_enforces_example :
    (p : Expr) × (policy_predicate user customers_entity region_policy ≡ ok p)
    × ((truth : Expr → Bool)
        → where_holds truth (where_of secured_query) ≡ true
        → (holds truth p ≡ true) × (where_holds truth Node.absent ≡ true))
unfolding entities_of
inject_enforces_example =
    inject_enforces user shop_models customers_entity region_policy Node.absent_list
      (Node.select (Node.cons (Node.aliased (Node.Expr.column region) region) Node.nil))
      (Node.from (Node.table customers_table) Node.end) Node.absent Node.absent Node.absent [] none
      none secured_query query_secured as_source (Memᴰ.tail (Memᴰ.head refl)) (Memᴰ.head refl)

lowered_writable : is_ok (generate_sql postgres lowered_query) ≡ true
unfolding generate_sql write_node write_exprs
lowered_writable = refl

inject_writable_example : is_ok (generate_sql postgres secured_query) ≡ true
inject_writable_example =
    inject_writable postgres user shop_models lowered_query secured_query query_secured
      lowered_writable

region_query_finishes : is_ok (finish shop_models postgres none region_query) ≡ true
unfolding finish lower_node lower_exprs lower_dimension filter lookup new upsert ◌==◌ traverse
    generate_sql write_node write_exprs
region_query_finishes = refl

-- The customers again, under an alias.
abbrev aliased_query : SqlNode
aliased_query =
    Node.query Node.absent_list (Node.select Node.nil)
      (Node.from (Node.aliased_table customers_table region) Node.end) Node.absent Node.absent
      Node.absent [] none none

inject_aliased_example : where_of aliased_query ≡ Node.absent
unfolding inject gather fold_result add_where
inject_aliased_example =
    inject_aliased user shop_models Node.absent_list (Node.select Node.nil)
      (Node.from (Node.aliased_table customers_table region) Node.end) Node.absent Node.absent
      Node.absent [] none none aliased_query (all_aliased customers_table region no_joins) refl

-- The customers' regions in a common table expression, and what is selected from it.
abbrev nested_query : OptNodes → SqlNode
nested_query ctes =
    Node.query ctes (Node.select Node.nil) (Node.from (Node.table key) Node.end) Node.absent
      Node.absent Node.absent [] none none

inject_secures_ctes_example :
    (body' : SqlNode) × (inject user shop_models lowered_query ≡ ok body')
    × Memᴰ (Node.cte key body') (
        ctes_listed
          (nested_query (Node.present_list (Node.node (Node.cte key secured_query) Node.end))))
unfolding inject gather fold_result find_entities_for_table sort_by filter ◌==◌
    predicates_for_entity traverse policy_predicate find any get_claim lookup eq_expr str
    literal_str quote_text replace_char add_where entities_of merge_where text_leb
inject_secures_ctes_example =
    inject_secures_ctes user shop_models key lowered_query
      (Node.present_list (Node.node (Node.cte key lowered_query) Node.end)) (Node.select Node.nil)
      (Node.from (Node.table key) Node.end) Node.absent Node.absent Node.absent [] none none
      (nested_query (Node.present_list (Node.node (Node.cte key secured_query) Node.end))) refl
      (Memᴰ.head refl)

abbrev shop_sql : Text
shop_sql =
    str
      "SELECT \"r\", SUM(\"a\") FROM \"O\" LEFT JOIN \"C\" ON \"O\".\"c\" = \"C\".\"k\" WHERE \"r\" = 'x' GROUP BY \"r\""

shop_compiled : compile shop_models postgres total_request (some user) ≡ ok shop_sql
unfolding any find filter sort_by str ◌==◌ trim split join_with contains_char replace_char traverse
    fold_result lookup insert insert_set eq_expr quote_text literal_str build_semantic_select
    build_semantic_group_by add_alias all_aliases build_from_join_path to_expr build_semantic_graph
    windows node_path window_edge window_join find_join_path_resolved new lower_dimension
    lower_measure lower_exprs lower_ctes get_claim find_entities_for_table policy_predicate
    predicates_for_entity gather inject_cte classify has_metric validate entity_matches only_match
    resolve_dimension resolve find_model resolve_metric trunc_expr push_join collect_joins
    find_entity path_entities select_clause group_by_clause where_clause_of pre_aggregate
    semantic_query finish compile quote_identifier quote_schema_qualified write_exprs write_ctes
    generate_sql
shop_compiled = refl

-- The same request with no user context.
abbrev pub shop_plain_sql : Text
shop_plain_sql =
    str
      "SELECT \"r\", SUM(\"a\") FROM \"O\" LEFT JOIN \"C\" ON \"O\".\"c\" = \"C\".\"k\" GROUP BY \"r\""

pub shop_compiled_plain : compile shop_models postgres total_request none ≡ ok shop_plain_sql
unfolding any find filter sort_by str ◌==◌ trim split join_with contains_char replace_char traverse
    fold_result lookup insert insert_set eq_expr quote_text literal_str build_semantic_select
    build_semantic_group_by add_alias all_aliases build_from_join_path to_expr build_semantic_graph
    windows node_path window_edge window_join find_join_path_resolved new lower_dimension
    lower_measure lower_exprs lower_ctes get_claim find_entities_for_table policy_predicate
    predicates_for_entity gather inject_cte classify has_metric validate entity_matches only_match
    resolve_dimension resolve find_model resolve_metric trunc_expr push_join collect_joins
    find_entity path_entities select_clause group_by_clause where_clause_of pre_aggregate
    semantic_query finish compile quote_identifier quote_schema_qualified write_exprs write_ctes
    generate_sql
shop_compiled_plain = refl

-- the query of the request before row-level security
abbrev shop_query : SqlNode
shop_query = elim (semantic_query shop_models total_request) [
  | ok q ↦ q
  | err e ↦ Node.table customers_table
]

compile_secured_example :
    (ast : SqlNode) × (generate_sql postgres ast ≡ ok shop_sql)
    × IsQueried customers_table ast
    × (p : Expr) × (policy_predicate user customers_entity region_policy ≡ ok p)
    × ((truth : Expr → Bool) → where_holds truth (where_of ast) ≡ true → holds truth p ≡ true)
unfolding any find filter sort_by str ◌==◌ trim split join_with contains_char replace_char traverse
    fold_result lookup insert insert_set eq_expr quote_text literal_str build_semantic_select
    build_semantic_group_by add_alias all_aliases build_from_join_path to_expr build_semantic_graph
    windows node_path window_edge window_join find_join_path_resolved classify has_metric validate
    entity_matches only_match resolve_dimension resolve find_model resolve_metric trunc_expr
    push_join collect_joins find_entity path_entities select_clause group_by_clause where_clause_of
    pre_aggregate semantic_query entities_of
compile_secured_example =
    compile_secured shop_models postgres total_request user shop_sql shop_query customers_entity
      region_policy shop_compiled refl (queried _ _ _ _ _ _ _ _ _ (in_join _ (joined _ _)))
      (Memᴰ.tail (Memᴰ.head refl)) (Memᴰ.head refl)
