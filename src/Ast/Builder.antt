-- ===== src/Ast/Builder.antt =====
-- Builders of the tree, may_core/src/ast/builder.rs. The debug assertions of
-- `build_from_join_path` are not modelled.
use mathlib.Core.List.{foldl}
use maysemantic.Prelude.{
  ℕ, suc, Text, str, Option, some, none, List, [], ◌∷◌, ◌++◌, if◌then◌else◌, nat_eq, ◌==◌, not, map,
  lookup, upsert, insert, text_key, get_or, show_nat,
}
use maysemantic.Ast.Node
use maysemantic.Ast.Node.{Expr, Exprs, SqlNode, Nodes, OptNode, OptNodes, OrderByExpr, nil, cons}
use maysemantic.Graph.Engine.{GraphNode}
use maysemantic.Graph.Resolver.{ResolvedJoin}

-- `collect()` into a `Vec<Expr>`
abbrev pub to_exprs : List Expr → Exprs
to_exprs [] = nil
to_exprs (e ∷ es) = cons e (to_exprs es)

unfoldable pub dimension_refs : Option Text → List (Text × Text) → List Expr
dimension_refs model dims = map (λ d. Node.dimension_ref model d.0 d.1) dims

unfoldable pub measure_refs : Option Text → List (Text × Text) → List Expr
measure_refs model measures = map (λ m. Node.measure_ref model m.0 m.1) measures

unfoldable pub build_semantic_select :
    Option Text → List (Text × Text) → List (Text × Text) → SqlNode
unfolding dimension_refs measure_refs
build_semantic_select model dimensions measures =
    Node.select (to_exprs (dimension_refs model dimensions ++ measure_refs model measures))

unfoldable pub build_semantic_group_by : Option Text → List (Text × Text) → SqlNode
unfolding dimension_refs
build_semantic_group_by model dimensions =
    Node.group_by (to_exprs (dimension_refs model dimensions))

opt_node : Option SqlNode → OptNode
opt_node none = Node.absent
opt_node (some n) = Node.present n

unfoldable pub build_semantic_timespine_query : Text → SqlNode → Option SqlNode → SqlNode
unfolding opt_node
build_semantic_timespine_query granularity sel group_by =
    Node.query Node.absent_list sel (Node.from (Node.time_spine granularity) Node.end) Node.absent
      (opt_node group_by) Node.absent [] none none

-- `table_counts` and `entity_aliases`
pub record Aliases : Type 0 where
  pub table_counts : List (Text × ℕ)
  pub entity_aliases : List (Text × Text)

-- the alias of the next use of a table
unfoldable pub next_alias : List (Text × ℕ) → Text → Text
next_alias table_counts table =
    let count = get_or 0 (lookup table table_counts) in
    if nat_eq count 0 then table else table ++ (str "_" ++ show_nat count)

unfoldable pub add_alias : Aliases → GraphNode → Aliases
unfolding next_alias
add_alias a n = record {
  table_counts = upsert n.table_name 0 suc a.table_counts;
  entity_aliases = insert n.entity_name (next_alias a.table_counts n.table_name) a.entity_aliases;
}

-- a table, aliased where its alias is another name
unfoldable pub relation : Text → Text → SqlNode
relation table alias =
    if not (alias == table) then Node.aliased_table table alias else Node.table table

abbrev alias_of : Aliases → GraphNode → Text
alias_of a n = get_or n.table_name (lookup n.entity_name a.entity_aliases)

join_node : Aliases → ResolvedJoin → SqlNode
unfolding relation
join_node a j =
    let left_alias = alias_of a j.left_table in
    let right_alias = alias_of a j.right_table in
    Node.join j.edge.join_type (relation j.right_table.table_name right_alias) (
      Node.binary_op (Node.Expr.column (left_alias ++ (str "." ++ j.edge.left_column))) (str "=")
        (Node.Expr.column (right_alias ++ (str "." ++ j.edge.right_column))))

join_nodes : Aliases → List ResolvedJoin → Nodes
unfolding join_node
join_nodes a [] = Node.end
join_nodes a (j ∷ js) = Node.node (join_node a j) (join_nodes a js)

unfoldable pub all_aliases : GraphNode → List ResolvedJoin → Aliases
all_aliases base_entity joins =
    foldl (λ a j. add_alias a j.right_table)
      (add_alias (record { table_counts = []; entity_aliases = [] }) base_entity) joins

unfoldable pub build_from_join_path : GraphNode → List ResolvedJoin → SqlNode
unfolding join_nodes
build_from_join_path base_entity joins =
    Node.from (relation base_entity.table_name (next_alias [] base_entity.table_name))
      (join_nodes (all_aliases base_entity joins) joins)

unfoldable pub with_pagination : SqlNode → List OrderByExpr → Option ℕ → Option ℕ → SqlNode
with_pagination (Node.query ctes sel src w g h _ _ _) order_by limit offset =
    Node.query ctes sel src w g h order_by limit offset
with_pagination other order_by limit offset = other
