-- ===== src/Compiler/Lowering/Physical.antt =====
-- Lowering removes every semantic reference.
use maysemantic.Prelude.{
  traverse, Text, Bool, true, Option, some, none, List, [], ◌∷◌, ◌≡◌, refl, all, all-append,
  all-filter, ok, arith, ◌==◌,
}
use maysemantic.Ast.Node
use maysemantic.Ast.Node.{Expr, Exprs, OrderByExpr, SqlNode, Nodes, OptNode, OptNodes}
use maysemantic.Ast.Physical.{
  is_physical_ctes, is_physical_opt, is_physical_order, are_physical_nodes, is_physical_node,
  is_physical, are_physical,
}
use maysemantic.Models.Core.{Measure, Entity, AggregationType, to_expr}
use maysemantic.Compiler.Lowering.{
  lower_ctes, lower_opt, lower_order, lower_nodes, lower_node, ModelMap, new, lower_expr,
  lower_exprs, pick_dimension, pick_measure, select_hits,
}
use maysemantic.Compiler.Lowering.Index.{
  declared_measures, measure_name, measure_expr, measure_items,
}
use maysemantic.Compiler.Lowering.Declared.{named, in_entities}
use maysemantic.Compiler.Lowering.Refines.{lower_expr-dimension_ref, lower_expr-measure_ref}

abbrev hit_physical : Text × Expr → Bool
hit_physical (m, e) = is_physical e

to_expr_physical : (a : AggregationType) (c : Text) → is_physical (to_expr a (Node.column c)) ≡ true
unfolding is_physical to_expr
to_expr_physical AggregationType.sum c = refl
to_expr_physical a c = refl

named_physical :
    (m n : Text) (xs : List Measure)
    → all hit_physical (named measure_name measure_expr measure_items m n xs) ≡ true
unfolding all
named_physical m n [] = refl
named_physical m n (x ∷ xs) = ground (arith, named_physical m n xs, to_expr_physical x.agg x.sql)

in_entities_physical :
    (m : Text) (k : Text × Text) (es : List Entity)
    → all hit_physical (in_entities measure_name measure_expr measure_items m k es) ≡ true
unfolding all
in_entities_physical m k [] = refl
in_entities_physical m k (e ∷ es) = ground (
  arith,
  in_entities_physical m k es,
  named_physical m k.1 e.measures,
  all-append hit_physical (named measure_name measure_expr measure_items m k.1 e.measures)
      (in_entities measure_name measure_expr measure_items m k es),
)

declared_physical :
    (k : Text × Text) (ms : ModelMap) → all hit_physical (declared_measures k ms) ≡ true
unfolding all
declared_physical k [] = refl
declared_physical k ((m, model) ∷ ms) = ground (
  arith,
  declared_physical k ms,
  in_entities_physical m k model.entities,
  all-append hit_physical (in_entities measure_name measure_expr measure_items m k model.entities)
      (declared_measures k ms),
)

select_hits_physical :
    (model : Option Text) (hits : List (Text × Expr))
    → all hit_physical hits ≡ true
    → all hit_physical (select_hits model hits) ≡ true
unfolding select_hits
select_hits_physical none hits h = h
select_hits_physical (some f) hits h = all-filter hit_physical (λ hit. hit.0 == f) hits h

pick_measure_physical :
    (seen : Bool) (entity name : Text) (hits : List (Text × Expr)) {e : Expr}
    → all hit_physical hits ≡ true
    → pick_measure seen entity name hits ≡ ok e
    → is_physical e ≡ true
unfolding pick_measure all
pick_measure_physical seen entity name [] h p = absurd (ground arith)
pick_measure_physical seen entity name ((m, x) ∷ []) h p = ground arith
pick_measure_physical seen entity name (a ∷ b ∷ hits) h p = cc

pick_dimension_physical :
    (seen : Bool) (entity name : Text) (hits : List (Text × Text)) {e : Expr}
    → pick_dimension seen entity name hits ≡ ok e
    → is_physical e ≡ true
unfolding pick_dimension is_physical
pick_dimension_physical seen entity name [] p = absurd (ground arith)
pick_dimension_physical seen entity name ((m, x) ∷ []) p = ground arith
pick_dimension_physical seen entity name (a ∷ b ∷ hits) p = cc

module _ (ms : ModelMap) where
  lower_dimension_physical :
      (model : Option Text) (entity name : Text) {e : Expr}
      → lower_expr (new ms) (Node.dimension_ref model entity name) ≡ ok e
      → is_physical e ≡ true
  lower_dimension_physical model entity name h =
      pick_dimension_physical _ _ _ _ (rw lower_expr-dimension_ref at h)

  lower_measure_physical :
      (model : Option Text) (entity name : Text) {e : Expr}
      → lower_expr (new ms) (Node.measure_ref model entity name) ≡ ok e
      → is_physical e ≡ true
  lower_measure_physical model entity name h =
      pick_measure_physical _ _ _ _
        (select_hits_physical model _ (declared_physical (entity, name) ms))
        (rw lower_expr-measure_ref at h)

  mutual
    unfolding is_physical lower_expr

    lower_expr_result :
        (e : Expr) (e' : Expr) → lower_expr (new ms) e ≡ ok e' → is_physical e' ≡ true
    lower_expr_result (Node.dimension_ref m e d) e' h = lower_dimension_physical m e d h
    lower_expr_result (Node.measure_ref m e d) e' h = lower_measure_physical m e d h
    lower_expr_result (Node.binary_op l op r) e' h =
        grind (arith, lower_expr_result l, lower_expr_result r)
    lower_expr_result (Node.function name args) e' h = grind (arith, lower_exprs_result args)
    lower_expr_result (Node.column c) e' h = ground arith
    lower_expr_result (Node.literal v) e' h = ground arith
    lower_expr_result (Node.raw sql) e' h = ground arith
    lower_expr_result (Node.aliased e alias) e' h = grind (arith, lower_expr_result e)
    lower_expr_result (Node.date_trunc g e) e' h = grind (arith, lower_expr_result e)
    lower_expr_result (Node.cast e t) e' h = grind (arith, lower_expr_result e)
    lower_expr_result (Node.json_access e p) e' h = grind (arith, lower_expr_result e)
    lower_expr_result (Node.unnest e) e' h = grind (arith, lower_expr_result e)
    lower_expr_result (Node.count_distinct e) e' h = grind (arith, lower_expr_result e)
    lower_expr_result Node.count_star e' h = ground arith

    lower_exprs_result :
        (es : Exprs) (es' : Exprs) → lower_exprs (new ms) es ≡ ok es' → are_physical es' ≡ true
    lower_exprs_result Node.nil es' h = ground arith
    lower_exprs_result (Node.cons e es) es' h =
        grind (arith, lower_expr_result e, lower_exprs_result es)

  lower_order_result :
      (os os' : List OrderByExpr)
      → traverse (lower_order (new ms)) os ≡ ok os'
      → all is_physical_order os' ≡ true
  unfolding traverse lower_order all
  lower_order_result [] os' h = ground arith
  lower_order_result (o ∷ os) os' h = grind (arith, lower_expr_result o.expr, lower_order_result os)

  mutual
    unfolding is_physical_node lower_node

    lower_node_result :
        (n : SqlNode) (n' : SqlNode) → lower_node (new ms) n ≡ ok n' → is_physical_node n' ≡ true
    lower_node_result (Node.query ctes sel src w g hv order limit offset) n' h = grind (
      arith,
      lower_ctes_result ctes,
      lower_node_result sel,
      lower_node_result src,
      lower_opt_result w,
      lower_opt_result g,
      lower_opt_result hv,
      lower_order_result order,
    )
    lower_node_result (Node.cte alias body) n' h = grind (arith, lower_node_result body)
    lower_node_result (Node.select es) n' h = grind (arith, lower_exprs_result es)
    lower_node_result (Node.from src joins) n' h =
        grind (arith, lower_node_result src, lower_nodes_result joins)
    lower_node_result (Node.join join_type relation on) n' h =
        grind (arith, lower_node_result relation, lower_expr_result on)
    lower_node_result (Node.where_clause e) n' h = grind (arith, lower_expr_result e)
    lower_node_result (Node.group_by es) n' h = grind (arith, lower_exprs_result es)
    lower_node_result (Node.having e) n' h = grind (arith, lower_expr_result e)
    lower_node_result (Node.table t) n' h = ground arith
    lower_node_result (Node.aliased_table t alias) n' h = ground arith
    lower_node_result (Node.time_spine granularity) n' h = ground arith

    lower_nodes_result :
        (ns : Nodes) (ns' : Nodes)
        → lower_nodes (new ms) ns ≡ ok ns'
        → are_physical_nodes ns' ≡ true
    lower_nodes_result Node.end ns' h = ground arith
    lower_nodes_result (Node.node n ns) ns' h =
        grind (arith, lower_node_result n, lower_nodes_result ns)

    lower_opt_result :
        (o : OptNode) (o' : OptNode) → lower_opt (new ms) o ≡ ok o' → is_physical_opt o' ≡ true
    lower_opt_result Node.absent o' h = ground arith
    lower_opt_result (Node.present n) o' h = grind (arith, lower_node_result n)

    lower_ctes_result :
        (o : OptNodes) (o' : OptNodes) → lower_ctes (new ms) o ≡ ok o' → is_physical_ctes o' ≡ true
    lower_ctes_result Node.absent_list o' h = ground arith
    lower_ctes_result (Node.present_list ns) o' h = grind (arith, lower_nodes_result ns)

-- What lowering returns holds no semantic reference, at any depth.
pub lower_node_is_physical :
    (ms : ModelMap) (n n' : SqlNode) → lower_node (new ms) n ≡ ok n' → is_physical_node n' ≡ true
lower_node_is_physical ms n n' h = lower_node_result ms n n' h
