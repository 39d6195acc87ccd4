-- ===== src/Compiler/Semantic/PreAgg.antt =====
-- The chasm-trap part of step 10 of may_core/src/compiler/semantic_compiler.rs: the conformed
-- dimension, and what each fact is aggregated by.
use maysemantic.Prelude.{
  Text, Bool, Option, some, none, List, [], ◌∷◌, if◌then◌else◌, ◌==◌, ◌&&◌, not, any, find, filter,
  leb, length, insert_set, text_key, traverse, Result, ok, err, ◌>>=◌, ◌>>◌, ok_or, map_err,
}
use maysemantic.Ast.Node.{SqlNode}
use maysemantic.Models.Core.{Dimension, Entity}
use maysemantic.Graph.Resolver.{ResolvedJoin}
use maysemantic.Compiler.Lowering.{ModelMap}
use maysemantic.Compiler.Fanout.{PathClassification, multi_fact_join, is_dimension}
use maysemantic.Compiler.MetricResolver.{ResolvedMetric}
use maysemantic.Compiler.ChasmTrap.{
  FactPreAgg, MeasureProjection, link_dimension_not_found, finer_than_conformed_grain,
}
use maysemantic.Compiler.ChasmTrap.Rewrite.{inject_ctes}
use maysemantic.Compiler.Semantic.{CompilerError, chasm_trap_handling_failed}
use maysemantic.Compiler.Semantic.Joins.{find_entity}

is_listed : List Text → Text → Bool
is_listed names name = any (λ f. f == name) names

-- the fact at the other end of a hop at the dimension
fact_neighbour : List Text → Text → ResolvedJoin → Option Text
unfolding is_listed
fact_neighbour fact_tables d j =
    if j.left_table.entity_name == d && is_listed fact_tables j.right_table.entity_name
    then some j.right_table.entity_name
    else if j.right_table.entity_name == d && is_listed fact_tables j.left_table.entity_name
    then some j.left_table.entity_name
    else none

connected_facts : List Text → Text → List ResolvedJoin → List Text
unfolding fact_neighbour
connected_facts fact_tables d [] = []
connected_facts fact_tables d (j ∷ js) =
    let rest = connected_facts fact_tables d js in
    elim (fact_neighbour fact_tables d j) [ some f ↦ insert_set f rest | none ↦ rest ]

-- `link_entity`
unfoldable pub link_entity : List Text → List ResolvedJoin → List Entity → Option Entity
unfolding connected_facts
link_entity fact_tables all_joins path =
    find (λ d. leb 2 (length (connected_facts fact_tables d.name all_joins)))
      (filter (λ e. is_dimension e.entity_type) path)

-- the column of the fact in its hop to the conformed dimension
unfoldable pub key_column : Text → Text → List ResolvedJoin → Option Text
key_column fact_name link [] = none
key_column fact_name link (j ∷ js) =
    let rest = key_column fact_name link js in
    if j.left_table.entity_name == fact_name && j.right_table.entity_name == link
    then some j.edge.left_column
    else if j.right_table.entity_name == fact_name && j.left_table.entity_name == link
    then some j.edge.right_column
    else rest

check_grain : Text → Text → List (Entity × Dimension) → Result CompilerError (Unit {0})
check_grain fact_name key_col [] = ok tt
check_grain fact_name key_col ((e, d) ∷ ds) =
    let rest = check_grain fact_name key_col ds in
    if e.name == fact_name && not (d.sql == key_col)
    then err (chasm_trap_handling_failed (finer_than_conformed_grain d.name e.name key_col))
    else rest

fact_measures : Entity → ResolvedMetric → List MeasureProjection
fact_measures fact_entity r =
    if fact_entity.name == r.measure_entity.name
    then record { name = r.measure.name; agg = r.measure.agg; sql = r.measure.sql } ∷ []
    else []

abbrev no_link : CompilerError
no_link = chasm_trap_handling_failed link_dimension_not_found

module _ (models : ModelMap) (r : ResolvedMetric) (all_joins : List ResolvedJoin) where
  unfoldable pub fact_pre_agg : Text → Text → Result CompilerError FactPreAgg
  unfolding check_grain fact_measures
  fact_pre_agg link fact_name = do
    fact_entity ← find_entity models fact_name
    key_col ← ok_or (key_column fact_name link all_joins) no_link
    check_grain fact_name key_col r.dimensions
    ok (record {
      entity = fact_entity.name;
      table = fact_entity.table;
      group_key = key_col;
      measures = fact_measures fact_entity r;
    })

  unfoldable pub pre_aggregate :
      PathClassification → List Entity → SqlNode → Result CompilerError SqlNode
  pre_aggregate (multi_fact_join fact_tables) path query_node = do
    link ← ok_or (link_entity fact_tables all_joins path) no_link
    facts ← traverse (fact_pre_agg link.name) fact_tables
    map_err chasm_trap_handling_failed (inject_ctes query_node (multi_fact_join fact_tables) facts)
  pre_aggregate _ path query_node = ok query_node
