-- ===== src/Tests/Lowering.antt =====
-- Lowering and the dialects' writers, at the shop.
use maysemantic.Prelude.{
  Text, List, lookup, traverse, upsert, ◌==◌, filter, true, false, none, some, [], ◌≡◌, refl, ok,
  is_ok,
}
use maysemantic.Ast.Node
use maysemantic.Ast.Node.{Expr, SqlNode}
use maysemantic.Ast.Physical.{is_physical_node}
use maysemantic.Compiler.Lowering.{
  lower_exprs, lower_dimension, new, lower_expr, lower_node, dimension_not_found,
  ambiguous_dimension, measure_not_found, ambiguous_measure,
}
use maysemantic.Compiler.Lowering.Candidates.{Candidates, Verdict}
use maysemantic.Compiler.Lowering.Index.{declared_dims, declared_measures}
use maysemantic.Compiler.Lowering.Seen.{declares_entity}
use maysemantic.Compiler.Lowering.Refines.{lower_dimension_ref, lower_measure_ref}
use maysemantic.Compiler.Lowering.Physical.{lower_node_is_physical}
use maysemantic.Dialects.Quote.{postgres}
use maysemantic.Dialects.Writer.{generate_sql}
use maysemantic.Dialects.Writer.Renders.{is_ok-generate_sql}
use maysemantic.Dialects.Writer.Rendered.{renders_all, renders_node}
use maysemantic.Tests.Fixtures.{
  shop, shop_models, orders, customers, customers_table, region, amount,
}

lower_dimension_ref_example :
    (candidates : List (Text × Text)) × Candidates
      (some shop)
      (declared_dims (customers, region) shop_models)
      candidates
    × Verdict
        (λ sql. Node.Expr.column sql)
        customers
        (dimension_not_found customers region)
        (ambiguous_dimension customers region)
        (declares_entity (some shop) customers shop_models)
        candidates
        (lower_expr (new shop_models) (Node.dimension_ref (some shop) customers region))
lower_dimension_ref_example = lower_dimension_ref shop_models (some shop) customers region

lower_measure_ref_example :
    (candidates : List (Text × Expr)) × Candidates none
      (declared_measures (orders, amount) shop_models)
      candidates
    × Verdict
        (λ aggregate. aggregate)
        orders
        (measure_not_found orders amount)
        (ambiguous_measure orders amount)
        (declares_entity none orders shop_models)
        candidates
        (lower_expr (new shop_models) (Node.measure_ref none orders amount))
lower_measure_ref_example = lower_measure_ref shop_models none orders amount

abbrev pub region_query : SqlNode
region_query =
    Node.query Node.absent_list
      (Node.select (
        Node.cons (Node.aliased (Node.dimension_ref (some shop) customers region) region) Node.nil))
      (Node.from (Node.table customers_table) Node.end) Node.absent Node.absent Node.absent [] none
      none

abbrev pub lowered_query : SqlNode
lowered_query =
    Node.query Node.absent_list
      (Node.select (Node.cons (Node.aliased (Node.Expr.column region) region) Node.nil))
      (Node.from (Node.table customers_table) Node.end) Node.absent Node.absent Node.absent [] none
      none

pub region_query_lowered : lower_node (new shop_models) region_query ≡ ok lowered_query
unfolding lower_node lower_exprs lower_dimension filter lookup new upsert ◌==◌ traverse
region_query_lowered = refl

lower_node_is_physical_example : is_physical_node lowered_query ≡ true
lower_node_is_physical_example =
    lower_node_is_physical shop_models region_query lowered_query region_query_lowered

is_ok-generate_sql_example : is_ok (generate_sql postgres region_query) ≡ false
unfolding renders_node renders_all
is_ok-generate_sql_example = is_ok-generate_sql postgres region_query
