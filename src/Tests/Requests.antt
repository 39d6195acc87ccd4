-- ===== src/Tests/Requests.antt =====
-- Requests, metrics, joins and the state, at the shop.
use maysemantic.Prelude.{
  ◌⊎◌, is_ascii_lowercase, split, lookup, insert, fold_result, traverse, any, ◌==◌, all, Text, true,
  Option, none, some, List, [], ◌∷◌, ◌≡◌, refl, ok, err, is_ok, Result, text_key,
}
use maysemantic.Ast.Node
use maysemantic.Ast.Node.{Expr}
use maysemantic.Models.Core.{validate_name, validate_bare_sql, validate, SemanticModel}
use maysemantic.Models.State.Directory.{load_dir_each, load_each}
use maysemantic.Graph.Resolver.Leads.{FindsWalk, Leads, step, stay, find_join_path_resolved-Leads}
use maysemantic.Models.State.{read_model, clone, load_dir, SemanticState, get_graph, load_from_yaml}
use maysemantic.Models.State.Reachable.{
  IsLoaded, Reachable, fresh, after_yaml, after_graph, Reachable-IsLoaded,
}
use maysemantic.Graph.Engine.{GraphError, SemanticGraph, build_semantic_graph, node_of, edge_of}
use maysemantic.Graph.Engine.Builds.{is_ok-build_semantic_graph}
use maysemantic.Graph.Resolver.{
  get_node, unreachable_path, find_join_path_resolved, node_path, window_edge,
  find_join_path_resolved, window_join, windows, ResolvedJoin,
}
use maysemantic.Compiler.Lowering.{ModelMap}
use maysemantic.Compiler.MetricResolver.{ResolvedMetric}
use maysemantic.Tests.Graphs.{list_graph}
use maysemantic.Tests.Fixtures.{
  customers, shop, orders, placed_at, orders_entity, customers_entity, region_dim, amount_measure,
  total_metric, customer_join, shop_model, shop_models,
}

is_ok-build_semantic_graph_example : is_ok (build_semantic_graph shop_models) ≡ true
unfolding all any ◌==◌
is_ok-build_semantic_graph_example = is_ok-build_semantic_graph shop_models

abbrev resolved_total : ResolvedMetric
resolved_total = record {
  metric = total_metric;
  measure_entity = orders_entity;
  measure = amount_measure;
  dimensions = (customers_entity, region_dim) ∷ [];
}

-- The model under two names.
abbrev two_shops : ModelMap
two_shops = (shop, shop_model) ∷ (orders, shop_model) ∷ []

abbrev two_names : List Text
two_names = shop ∷ orders ∷ []

abbrev graph_or : Result GraphError SemanticGraph → SemanticGraph
graph_or (ok g) = g
graph_or (err e) = (record { nodes = []; edges = [] }, [])

abbrev shop_graph : SemanticGraph
shop_graph = graph_or (build_semantic_graph shop_models)

abbrev customer_hop : ResolvedJoin
customer_hop = record {
  left_table = node_of orders_entity;
  right_table = node_of customers_entity;
  edge = edge_of customer_join;
}

abbrev by_day : Expr
by_day = Node.date_trunc (b'd' ∷ []) (Node.dimension_ref (some shop) orders placed_at)

-- A parser that reads one text.
abbrev parse_shop : Text → Option SemanticModel
parse_shop [] = none
parse_shop (c ∷ s) = some shop_model

abbrev new_state : SemanticState SemanticGraph
new_state = record { models = []; graph_cache = none }

abbrev shop_state : SemanticState SemanticGraph
shop_state = (get_graph (load_from_yaml parse_shop shop new_state).1).1

shop_state-Reachable : Reachable parse_shop shop_state
shop_state-Reachable = after_graph (after_yaml shop fresh)

Reachable-IsLoaded_example : IsLoaded shop_state
Reachable-IsLoaded_example = Reachable-IsLoaded parse_shop shop_state shop_state-Reachable

shop_walk : FindsWalk shop_graph.0 0 1
unfolding build_semantic_graph lookup insert ◌==◌ fold_result any
shop_walk cost path h = (
  1 ∷ [],
  cc,
  step 0 (edge_of customer_join) (node_of orders_entity) (node_of customers_entity) refl refl refl
      refl stay,
)

find_join_path_resolved-Leads_example :
    (find_join_path_resolved shop_graph orders customers ≡ err (unreachable_path orders customers))
    ⊎ ((js : List ResolvedJoin) × (find_join_path_resolved shop_graph orders customers ≡ ok js)
        × Leads shop_graph.0 (node_of orders_entity) (node_of customers_entity) js)
unfolding get_node build_semantic_graph lookup insert ◌==◌ fold_result
find_join_path_resolved-Leads_example =
    find_join_path_resolved-Leads shop_graph orders customers 0 1 (node_of orders_entity)
      (node_of customers_entity) refl refl shop_walk

shop_path : find_join_path_resolved shop_graph orders customers ≡ ok (customer_hop ∷ [])
unfolding find_join_path_resolved node_path lookup build_semantic_graph fold_result insert ◌==◌ any
    traverse windows window_join window_edge
shop_path = refl

load_dir_each_example :
    (load_dir parse_shop (some shop ∷ some shop ∷ []) new_state).1
    ≡ load_each parse_shop (shop ∷ shop ∷ []) (clone new_state)
unfolding load_dir traverse read_model validate validate_name is_ascii_lowercase all
    validate_bare_sql split
load_dir_each_example = load_dir_each parse_shop (shop ∷ shop ∷ []) new_state refl
