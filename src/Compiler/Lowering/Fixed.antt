-- ===== src/Compiler/Lowering/Fixed.antt =====
-- Lowering leaves what is physical alone.
use maysemantic.Prelude.{List, [], ◌∷◌, ◌≡◌, refl, true, all, traverse, ok, arith}
use maysemantic.Ast.Node
use maysemantic.Ast.Node.{Expr, Exprs, OrderByExpr, SqlNode, Nodes, OptNode, OptNodes}
use maysemantic.Ast.Physical.{
  is_physical, are_physical, is_physical_order, is_physical_node, are_physical_nodes,
  is_physical_opt, is_physical_ctes,
}
use maysemantic.Compiler.Lowering.{
  ModelMap, SemanticLowering, new, lower_expr, lower_exprs, lower_order, lower_node, lower_nodes,
  lower_opt, lower_ctes,
}

module _ (ix : SemanticLowering) where
  mutual
    unfolding is_physical lower_expr

    lower_expr_physical : (e : Expr) → is_physical e ≡ true → lower_expr ix e ≡ ok e
    lower_expr_physical (Node.dimension_ref m e d) h = cc
    lower_expr_physical (Node.measure_ref m e d) h = cc
    lower_expr_physical (Node.binary_op l op r) h =
        ground (arith, lower_expr_physical l, lower_expr_physical r)
    lower_expr_physical (Node.function name args) h = ground (arith, lower_exprs_physical args)
    lower_expr_physical (Node.column c) h = refl
    lower_expr_physical (Node.literal v) h = refl
    lower_expr_physical (Node.raw sql) h = refl
    lower_expr_physical (Node.aliased e alias) h = ground (arith, lower_expr_physical e)
    lower_expr_physical (Node.date_trunc g e) h = ground (arith, lower_expr_physical e)
    lower_expr_physical (Node.cast e t) h = ground (arith, lower_expr_physical e)
    lower_expr_physical (Node.json_access e p) h = ground (arith, lower_expr_physical e)
    lower_expr_physical (Node.unnest e) h = ground (arith, lower_expr_physical e)
    lower_expr_physical (Node.count_distinct e) h = ground (arith, lower_expr_physical e)
    lower_expr_physical Node.count_star h = refl

    lower_exprs_physical : (es : Exprs) → are_physical es ≡ true → lower_exprs ix es ≡ ok es
    lower_exprs_physical Node.nil h = refl
    lower_exprs_physical (Node.cons e es) h =
        ground (arith, lower_expr_physical e, lower_exprs_physical es)

  lower_order_physical :
      (os : List OrderByExpr)
      → all is_physical_order os ≡ true
      → traverse (lower_order ix) os ≡ ok os
  unfolding traverse lower_order all
  lower_order_physical [] h = refl
  lower_order_physical (o ∷ os) h =
      ground (arith, lower_expr_physical o.expr, lower_order_physical os)

  mutual
    unfolding is_physical_node lower_node

    lower_node_physical : (n : SqlNode) → is_physical_node n ≡ true → lower_node ix n ≡ ok n
    lower_node_physical (Node.query ctes sel src w g hv order limit offset) h = ground (
      arith,
      lower_ctes_physical ctes,
      lower_node_physical sel,
      lower_node_physical src,
      lower_opt_physical w,
      lower_opt_physical g,
      lower_opt_physical hv,
      lower_order_physical order,
    )
    lower_node_physical (Node.cte alias body) h = ground (arith, lower_node_physical body)
    lower_node_physical (Node.select es) h = ground (arith, lower_exprs_physical es)
    lower_node_physical (Node.from src joins) h =
        ground (arith, lower_node_physical src, lower_nodes_physical joins)
    lower_node_physical (Node.join join_type relation on) h =
        ground (arith, lower_node_physical relation, lower_expr_physical on)
    lower_node_physical (Node.where_clause e) h = ground (arith, lower_expr_physical e)
    lower_node_physical (Node.group_by es) h = ground (arith, lower_exprs_physical es)
    lower_node_physical (Node.having e) h = ground (arith, lower_expr_physical e)
    lower_node_physical (Node.table t) h = refl
    lower_node_physical (Node.aliased_table t alias) h = refl
    lower_node_physical (Node.time_spine granularity) h = refl

    lower_nodes_physical : (ns : Nodes) → are_physical_nodes ns ≡ true → lower_nodes ix ns ≡ ok ns
    lower_nodes_physical Node.end h = refl
    lower_nodes_physical (Node.node n ns) h =
        ground (arith, lower_node_physical n, lower_nodes_physical ns)

    lower_opt_physical : (o : OptNode) → is_physical_opt o ≡ true → lower_opt ix o ≡ ok o
    lower_opt_physical Node.absent h = refl
    lower_opt_physical (Node.present n) h = ground (arith, lower_node_physical n)

    lower_ctes_physical : (o : OptNodes) → is_physical_ctes o ≡ true → lower_ctes ix o ≡ ok o
    lower_ctes_physical Node.absent_list h = refl
    lower_ctes_physical (Node.present_list ns) h = ground (arith, lower_nodes_physical ns)

-- A tree with no semantic reference is lowered to itself.
lower_node-physical :
    (ms : ModelMap) (n : SqlNode) → is_physical_node n ≡ true → lower_node (new ms) n ≡ ok n
lower_node-physical ms = lower_node_physical (new ms)
