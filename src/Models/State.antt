-- ===== src/Models/State.antt =====
-- The state of the semantic layer and its manager, may_core/src/models/state.rs. The YAML parser is
-- the parameter `parse`; the directory is the list of what reading each of its YAML files gives.
-- The lock is not modelled: an operation is a step of the state.
pub mod Reachable
pub mod Directory
pub mod Loading
use mathlib.Core.List.{foldl}
use maysemantic.Prelude.{
  ◌+◌, ℕ, Text, Bool, Option, some, none, List, [], ◌∷◌, if◌then◌else◌, length, lookup, insert,
  text_key, values, traverse, Result, ok, err, ◌>>=◌, ok_or,
}
use maysemantic.Models.Core.{SemanticModel, validate}
use maysemantic.Compiler.Lowering.{ModelMap}
use maysemantic.Graph.Engine.{DiGraph, SemanticGraph, GraphError, build_semantic_graph}

pub data StateError : Type 0 where
  yaml_error validation_error io_error : StateError

pub record StateStats : Type 0 where
  pub model_count : ℕ
  pub entity_count : ℕ
  pub metric_count : ℕ

pub record SemanticState (G : Type 0) : Type 0 where
  pub models : ModelMap
  pub graph_cache : Option G

-- `SemanticState::clone`: the copy starts with an empty cache.
unfoldable pub clone : {G : Type 0} → SemanticState G → SemanticState G
clone s = record s { graph_cache = none }

unfoldable pub insert_model : {G : Type 0} → SemanticState G → SemanticModel → SemanticState G
insert_model s model = record s { models = insert model.name model s.models }

-- `if let Some(cached)`, or the graph that is built, which is then kept
keep_graph :
    {G : Type 0} → SemanticState G → Result GraphError G → Result GraphError G × SemanticState G
keep_graph s (ok g) = (ok g, record s { graph_cache = some g })
keep_graph s (err e) = (err e, s)

abbrev pub head? {ℓ} : {A : Type ℓ} → List A → Option A
head? [] = none
head? (x ∷ xs) = some x

module _ ⦃D : DiGraph⦄ where
  from_cache :
      SemanticState SemanticGraph
      → Option SemanticGraph
      → Result GraphError SemanticGraph × SemanticState SemanticGraph
  unfolding keep_graph
  from_cache s (some cached) = (ok cached, s)
  from_cache s none = keep_graph s (build_semantic_graph s.models)

  unfoldable pub get_graph :
      SemanticState SemanticGraph → Result GraphError SemanticGraph × SemanticState SemanticGraph
  unfolding from_cache
  get_graph s = from_cache s s.graph_cache

module _ (parse : Text → Option SemanticModel) where
  -- the text of one file, parsed and validated
  unfoldable pub read_model : Text → Result StateError SemanticModel
  read_model yaml = do
    model ← ok_or (parse yaml) yaml_error
    if validate model then ok model else err validation_error

  read_file : Option Text → Result StateError SemanticModel
  read_file content = do yaml ← ok_or content io_error; read_model yaml

module _ {G : Type 0} where
  store :
      SemanticState G
      → Result StateError (List SemanticModel)
      → Result StateError (Unit {0}) × SemanticState G
  store s (err e) = (err e, s)
  store s (ok models) = (ok tt, foldl insert_model (clone s) models)

  unfoldable pub load_from_yaml :
      (Text → Option SemanticModel)
      → Text
      → SemanticState G
      → Result StateError (Unit {0}) × SemanticState G
  unfolding store
  load_from_yaml parse yaml s = store s (do model ← read_model parse yaml; ok (model ∷ []))

  unfoldable pub load_dir :
      (Text → Option SemanticModel)
      → List (Option Text)
      → SemanticState G
      → Result StateError (Unit {0}) × SemanticState G
  unfolding store read_file
  load_dir parse files s = store s (traverse (read_file parse) files)

unfoldable pub get_model : {G : Type 0} → SemanticState G → Text → Option SemanticModel
get_model s name = lookup name s.models

unfoldable pub get_all_models : {G : Type 0} → SemanticState G → List SemanticModel
get_all_models s = values s.models

-- the first model in the order of iteration
unfoldable pub get_default_model : {G : Type 0} → SemanticState G → Option SemanticModel
get_default_model s = head? (values s.models)

entities_in : List SemanticModel → ℕ
entities_in [] = 0
entities_in (m ∷ ms) = length m.entities + entities_in ms

metrics_in : List SemanticModel → ℕ
metrics_in [] = 0
metrics_in (m ∷ ms) = length m.metrics + metrics_in ms

unfoldable pub get_stats : {G : Type 0} → SemanticState G → StateStats
unfolding entities_in metrics_in
get_stats s = record {
  model_count = length s.models;
  entity_count = entities_in (values s.models);
  metric_count = metrics_in (values s.models);
}
