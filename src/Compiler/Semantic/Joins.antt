-- ===== src/Compiler/Semantic/Joins.antt =====
-- Steps 5 and 6 of may_core/src/compiler/semantic_compiler.rs: the join hops from the entity of the
-- measure to those of the dimensions, and the entities on the way.
pub mod Distinct
use maysemantic.Prelude.{
  Text, Bool, Option, some, none, List, [], ◌∷◌, ◌++◌, if◌then◌else◌, ◌==◌, ◌&&◌, any, find, values,
  traverse, fold_result, Result, ok, err, ◌>>=◌, map_err,
}
use mathlib.Core.List.{foldl}
use maysemantic.Models.Core.{Dimension, Entity, SemanticModel}
use maysemantic.Graph.Engine.{DiGraph, SemanticGraph}
use maysemantic.Graph.Resolver.{ResolvedJoin, table_not_found, find_join_path_resolved}
use maysemantic.Compiler.Lowering.{ModelMap}
use maysemantic.Compiler.Semantic.{CompilerError, join_resolution}

-- a hop between the same two entities
unfoldable pub same_hop : ResolvedJoin → ResolvedJoin → Bool
same_hop existing j =
    existing.left_table.entity_name == j.left_table.entity_name
    && existing.right_table.entity_name == j.right_table.entity_name

unfoldable pub push_join : List ResolvedJoin → ResolvedJoin → List ResolvedJoin
unfolding same_hop
push_join all_joins j =
    if any (λ existing. same_hop existing j) all_joins then all_joins else all_joins ++ (j ∷ [])

module _ ⦃D : DiGraph⦄ (graph : SemanticGraph) (base_entity_name : Text) where
  add_path : List ResolvedJoin → Entity × Dimension → Result CompilerError (List ResolvedJoin)
  add_path all_joins (dim_entity, dim) =
      if dim_entity.name == base_entity_name then ok all_joins else do
        path_joins ←
            map_err join_resolution (find_join_path_resolved graph base_entity_name dim_entity.name)
        ok (foldl push_join all_joins path_joins)

  unfoldable pub collect_joins :
      List (Entity × Dimension) → Result CompilerError (List ResolvedJoin)
  unfolding add_path
  collect_joins dimensions = fold_result add_path [] dimensions

first_entity : Text → List SemanticModel → Option Entity
first_entity name [] = none
first_entity name (m ∷ ms) =
    let rest = first_entity name ms in
    elim (find (λ e. e.name == name) m.entities) [ some e ↦ some e | none ↦ rest ]

or_not_found : Text → Option Entity → Result CompilerError Entity
or_not_found name none = err (join_resolution (table_not_found name))
or_not_found name (some e) = ok e

-- the closure `find_entity`
unfoldable pub find_entity : ModelMap → Text → Result CompilerError Entity
unfolding first_entity or_not_found
find_entity models name = or_not_found name (first_entity name (values models))

-- the entity of the measure, then the right entity of each hop
unfoldable pub path_entities :
    ModelMap → Text → List ResolvedJoin → Result CompilerError (List Entity)
path_entities models base_entity_name all_joins = do
  base ← find_entity models base_entity_name
  rest ← traverse (λ j. find_entity models j.right_table.entity_name) all_joins
  ok (base ∷ rest)
