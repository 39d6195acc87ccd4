-- ===== src/Ast/Physical.antt =====
-- Trees with no semantic reference: what the lowering pass produces and the dialects accept.
use maysemantic.Prelude.{Bool, true, false, ◌&&◌, all}
use maysemantic.Ast.Node
use maysemantic.Ast.Node.{Expr, Exprs, OrderByExpr, SqlNode, Nodes, OptNode, OptNodes}

unfoldable mutual
  pub is_physical : Expr → Bool
  is_physical (Node.dimension_ref model entity dimension) = false
  is_physical (Node.measure_ref model entity measure) = false
  is_physical (Node.column c) = true
  is_physical (Node.literal v) = true
  is_physical (Node.binary_op left op right) = is_physical left && is_physical right
  is_physical (Node.function name args) = are_physical args
  is_physical (Node.date_trunc granularity col) = is_physical col
  is_physical (Node.cast e target) = is_physical e
  is_physical (Node.json_access col path) = is_physical col
  is_physical (Node.unnest e) = is_physical e
  is_physical (Node.count_distinct e) = is_physical e
  is_physical Node.count_star = true
  is_physical (Node.raw sql) = true
  is_physical (Node.aliased e alias) = is_physical e

  pub are_physical : Exprs → Bool
  are_physical Node.nil = true
  are_physical (Node.cons e es) = is_physical e && are_physical es

abbrev pub is_physical_order : OrderByExpr → Bool
is_physical_order o = is_physical o.expr

unfoldable mutual
  pub is_physical_node : SqlNode → Bool
  is_physical_node (Node.query ctes sel src where_ group_by having order_by limit offset) =
      is_physical_ctes ctes
      && is_physical_node sel
      && is_physical_node src
      && is_physical_opt where_
      && is_physical_opt group_by
      && is_physical_opt having
      && all is_physical_order order_by
  is_physical_node (Node.cte alias body) = is_physical_node body
  is_physical_node (Node.select es) = are_physical es
  is_physical_node (Node.from src joins) = is_physical_node src && are_physical_nodes joins
  is_physical_node (Node.join join_type relation on) = is_physical_node relation && is_physical on
  is_physical_node (Node.where_clause e) = is_physical e
  is_physical_node (Node.group_by es) = are_physical es
  is_physical_node (Node.having e) = is_physical e
  is_physical_node (Node.table t) = true
  is_physical_node (Node.aliased_table t alias) = true
  is_physical_node (Node.time_spine granularity) = true

  pub are_physical_nodes : Nodes → Bool
  are_physical_nodes Node.end = true
  are_physical_nodes (Node.node n ns) = is_physical_node n && are_physical_nodes ns

  pub is_physical_opt : OptNode → Bool
  is_physical_opt Node.absent = true
  is_physical_opt (Node.present n) = is_physical_node n

  pub is_physical_ctes : OptNodes → Bool
  is_physical_ctes Node.absent_list = true
  is_physical_ctes (Node.present_list ns) = are_physical_nodes ns
