-- ===== src/Tests/Facts.antt =====
-- Pre-aggregation, at two facts.
use mathlib.Core.List.{Memᴰ}
use maysemantic.Prelude.{
  contains_char, all, Text, true, none, List, [], ◌∷◌, ◌≡◌, refl, ok, is_ok, contains, text_key,
  Result, err,
}
use maysemantic.Ast.Node
use maysemantic.Ast.Node.{SqlNode}
use maysemantic.Models.Core.{AggregationType}
use maysemantic.Compiler.Fanout.{multi_fact_join}
use maysemantic.Compiler.ChasmTrap.{
  is_count_distinct, ChasmTrapError, FactPreAgg, agg_alias, cte_aliases, build_cte_query,
}
use maysemantic.Compiler.ChasmTrap.Rewrite.{inject_ctes, reaggregate}
use maysemantic.Compiler.ChasmTrap.Reaggregate.{eval, per_group, eval-reaggregate}
use maysemantic.Compiler.ChasmTrap.Ctes.{
  ctes_of, IsDistinct, build_cte_query_aliases, build_cte_query_shared_alias,
}
use maysemantic.Compiler.ChasmTrap.Accepts.{is_ok-inject_ctes}
use maysemantic.Tests.Fixtures.{orders, customers, orders_table, customers_table, amount, key}

abbrev fact_at : Text → Text → AggregationType → FactPreAgg
fact_at entity table agg = record {
  entity = entity;
  table = table;
  group_key = key;
  measures = record { name = amount; agg = agg; sql = amount } ∷ [];
}

abbrev two_facts : List FactPreAgg
two_facts =
    fact_at orders orders_table AggregationType.count
    ∷ fact_at customers customers_table AggregationType.average
    ∷ []

abbrev plain_query : SqlNode
plain_query =
    Node.query Node.absent_list (Node.select Node.nil)
      (Node.from (Node.table orders_table) Node.end) Node.absent Node.absent Node.absent [] none
      none

-- COUNT of three rows in two groups
eval-reaggregate_example :
    eval
      (reaggregate AggregationType.count)
      (eval AggregationType.count 5 (7 ∷ []))
      (per_group AggregationType.count ((9, []) ∷ []))
    ≡ 3
unfolding eval
eval-reaggregate_example = eval-reaggregate AggregationType.count 5 (7 ∷ []) ((9, []) ∷ []) refl

abbrev result_or : SqlNode → Result ChasmTrapError SqlNode → SqlNode
result_or other (ok n) = n
result_or other (err e) = other

abbrev built : SqlNode
built = result_or plain_query (build_cte_query plain_query two_facts)

build_cte_query_aliases_example :
    IsDistinct (cte_aliases (ctes_of built))
    × ((fact : FactPreAgg)
        → Memᴰ fact two_facts
        → contains (cte_aliases (ctes_of built)) (agg_alias fact.table) ≡ true)
unfolding build_cte_query
build_cte_query_aliases_example =
    build_cte_query_aliases Node.absent_list (Node.select Node.nil)
      (Node.from (Node.table orders_table) Node.end) Node.absent Node.absent Node.absent [] none
      none two_facts built refl tt

build_cte_query_shared_alias_example :
    build_cte_query plain_query (
      fact_at orders (b'x' ∷ b'.' ∷ orders_table) AggregationType.sum
      ∷ fact_at customers (b'y' ∷ b'.' ∷ orders_table) AggregationType.sum
      ∷ [])
    ≡ build_cte_query plain_query
        (fact_at orders (b'x' ∷ b'.' ∷ orders_table) AggregationType.sum ∷ [])
unfolding contains_char
build_cte_query_shared_alias_example =
    build_cte_query_shared_alias plain_query
      (fact_at orders (b'x' ∷ b'.' ∷ orders_table) AggregationType.sum)
      (fact_at customers (b'y' ∷ b'.' ∷ orders_table) AggregationType.sum) (b'x' ∷ []) (b'y' ∷ [])
      orders_table refl refl refl

is_ok-inject_ctes_example :
    is_ok (inject_ctes plain_query (multi_fact_join (orders ∷ customers ∷ [])) two_facts) ≡ true
unfolding is_count_distinct all
is_ok-inject_ctes_example =
    is_ok-inject_ctes plain_query (multi_fact_join (orders ∷ customers ∷ [])) two_facts
