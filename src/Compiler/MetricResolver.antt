-- ===== src/Compiler/MetricResolver.antt =====
-- From a metric's name to the entities, the measure and the dimensions that it stands for:
-- may_core/src/compiler/metric_resolver.rs.
pub mod Unique
use maysemantic.Prelude.{
  Text, Bool, Option, some, none, List, [], ◌∷◌, if◌then◌else◌, ◌==◌, find, map, contains, text_key,
  traverse, Result, ok, err, ◌>>=◌, ok_or,
}
use maysemantic.Models.Core.{Dimension, Measure, Metric, Entity, SemanticModel}

pub record ResolvedMetric : Type 0 where
  pub metric : Metric
  pub measure_entity : Entity
  pub measure : Measure
  pub dimensions : List (Entity × Dimension)

pub data MetricResolutionError : Type 0 where
  metric_not_found : Text → MetricResolutionError
  measure_not_found dimension_not_found : Text → Text → MetricResolutionError
  ambiguous_measure ambiguous_dimension : Text → Text → List Text → MetricResolutionError

-- One entry for each entity that has an item of the name: the first such item.
module _ {A : Type 0} (items : Entity → List A) (has_name : A → Bool) where
  unfoldable pub add_match : Entity → Option A → List (Entity × A) → List (Entity × A)
  add_match entity none matches = matches
  add_match entity (some a) matches = (entity, a) ∷ matches

  unfoldable pub entity_matches : List Entity → List (Entity × A)
  unfolding add_match
  entity_matches [] = []
  entity_matches (e ∷ es) = add_match e (find has_name (items e)) (entity_matches es)

-- The choice by `matches.len()`: the only match, or the error for none or for several.
unfoldable pub only_match :
    {A : Type 0}
    → MetricResolutionError
    → (List Text → MetricResolutionError)
    → List (Entity × A)
    → Result MetricResolutionError (Entity × A)
only_match missing ambiguous [] = err missing
only_match missing ambiguous (m ∷ []) = ok m
only_match missing ambiguous ms = err (ambiguous (map (λ m. m.0.name) ms))

module _ (model : SemanticModel) where
  unfoldable pub resolve_measure : Metric → Result MetricResolutionError (Entity × Measure)
  resolve_measure metric =
      only_match (measure_not_found metric.measure metric.name)
        (ambiguous_measure metric.measure metric.name)
        (entity_matches (λ e. e.measures) (λ m. m.name == metric.measure) model.entities)

  unfoldable pub resolve_dimension : Text → Text → Result MetricResolutionError (Entity × Dimension)
  resolve_dimension metric_name dim_name =
      only_match (dimension_not_found dim_name metric_name)
        (ambiguous_dimension dim_name metric_name)
        (entity_matches (λ e. e.dimensions) (λ d. d.name == dim_name) model.entities)

  -- the loop over `metric.dimensions`, with the set of the names that were seen
  unfoldable pub resolve_dimensions :
      Text → List Text → List Text → Result MetricResolutionError (List (Entity × Dimension))
  resolve_dimensions metric_name seen [] = ok []
  resolve_dimensions metric_name seen (d ∷ ds) =
      let skipped = resolve_dimensions metric_name seen ds in
      let rest = resolve_dimensions metric_name (d ∷ seen) ds in
      if contains seen d
      then skipped
      else do r ← resolve_dimension metric_name d; rs ← rest; ok (r ∷ rs)

  unfoldable pub resolve : Text → Result MetricResolutionError ResolvedMetric
  unfolding resolve_measure resolve_dimensions
  resolve metric_name = do
    metric ← ok_or (find (λ m. m.name == metric_name) model.metrics) (metric_not_found metric_name)
    (entity, measure) ← resolve_measure metric
    dims ← resolve_dimensions metric.name [] metric.dimensions
    ok (record { metric = metric; measure_entity = entity; measure = measure; dimensions = dims })

  unfoldable pub resolve_custom_dimensions :
      List Text → Text → Result MetricResolutionError (List (Entity × Dimension))
  resolve_custom_dimensions dim_names metric_name =
      traverse (resolve_dimension metric_name) dim_names
