-- ===== src/Compiler/Fanout.antt =====
-- Fan-out detection, may_core/src/compiler/fanout.rs.
use maysemantic.Prelude.{Bool, true, false, Text, List, [], ◌∷◌, map, filter}
use maysemantic.Models.Core.{Entity, EntityType}

pub data PathClassification : Type 0 where
  single_fact : PathClassification
  multi_fact_join : List Text → PathClassification
  pure_dimension : PathClassification

-- `entity_type == EntityType::Fact`
abbrev pub is_fact : EntityType → Bool
is_fact EntityType.fact = true
is_fact EntityType.dimension = false

-- `entity_type == EntityType::Dimension`
abbrev pub is_dimension : EntityType → Bool
is_dimension EntityType.fact = false
is_dimension EntityType.dimension = true

by_count : List Text → PathClassification
by_count [] = pure_dimension
by_count (t ∷ []) = single_fact
by_count fact_tables = multi_fact_join fact_tables

unfoldable pub classify : List Entity → PathClassification
unfolding by_count
classify nodes = by_count (map (λ e. e.name) (filter (λ e. is_fact e.entity_type) nodes))
