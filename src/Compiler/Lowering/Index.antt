-- ===== src/Compiler/Lowering/Index.antt =====
-- The indices of `SemanticLowering::new` against the enumeration of the models.
use mathlib.Core.List.{foldl}
use maysemantic.Ast.Node.{Expr, column}
use maysemantic.Prelude.{
  refl, ap, ◌∙◌, upsert, insert_set, Text, List, [], ◌∷◌, ◌≡◌, lookup, get_or, text_key, pair_key,
}
use maysemantic.Models.Core.{Dimension, Measure, to_expr, Entity, SemanticModel}
use maysemantic.Compiler.Lowering.{
  ModelMap, SemanticLowering, add_dimension, add_measure, add_entity, add_model, empty_index, new,
}
use maysemantic.Compiler.Lowering.Declared.{
  at, declared, push_item, push_entity, push_model, at-push_models,
}

-- The two kinds that the source indexes.
abbrev dim_name : Dimension → Text
dim_name d = d.name

abbrev dim_sql : Dimension → Text
dim_sql d = d.sql

abbrev dim_items : Entity → List Dimension
dim_items e = e.dimensions

abbrev pub measure_name : Measure → Text
measure_name m = m.name

abbrev pub measure_expr : Measure → Expr
measure_expr m = to_expr m.agg (column m.sql)

abbrev pub measure_items : Entity → List Measure
measure_items e = e.measures

abbrev pub declared_dims : Text × Text → ModelMap → List (Text × Text)
declared_dims = declared dim_name dim_sql dim_items

abbrev pub declared_measures : Text × Text → ModelMap → List (Text × Expr)
declared_measures = declared measure_name measure_expr measure_items

unfoldable pub see_entity : Text → List (Text × List Text) → Entity → List (Text × List Text)
see_entity m seen e = upsert e.name [] (insert_set m) seen

unfoldable pub see_model : List (Text × List Text) → Text × SemanticModel → List (Text × List Text)
see_model seen (m, model) = foldl (see_entity m) seen model.entities

-- Each pass over the state is a pass over each index.
fold_dims :
    (m : Text) (e : Entity) (ix : SemanticLowering) (ds : List Dimension)
    → foldl (add_dimension m e) ix ds
      ≡ record ix { dim_index = foldl (push_item dim_name dim_sql dim_items m e) ix.dim_index ds }
unfolding add_dimension push_item
fold_dims m e ix [] = refl
fold_dims m e ix (d ∷ ds) = fold_dims m e (add_dimension m e ix d) ds

fold_measures :
    (m : Text) (e : Entity) (ix : SemanticLowering) (xs : List Measure)
    → foldl (add_measure m e) ix xs ≡ record ix {
      measure_index =
          foldl (push_item measure_name measure_expr measure_items m e) ix.measure_index xs;
    }
unfolding add_measure push_item
fold_measures m e ix [] = refl
fold_measures m e ix (x ∷ xs) = fold_measures m e (add_measure m e ix x) xs

add_entity_lem :
    (m : Text) (ix : SemanticLowering) (e : Entity)
    → add_entity m ix e ≡ record {
      dim_index = push_entity dim_name dim_sql dim_items m ix.dim_index e;
      measure_index = push_entity measure_name measure_expr measure_items m ix.measure_index e;
      entity_models = see_entity m ix.entity_models e;
    }
unfolding add_entity push_entity see_entity
add_entity_lem m ix e = rw (fold_dims, fold_measures) refl

fold_entities :
    (m : Text) (ix : SemanticLowering) (es : List Entity)
    → foldl (add_entity m) ix es ≡ record {
      dim_index = foldl (push_entity dim_name dim_sql dim_items m) ix.dim_index es;
      measure_index =
          foldl (push_entity measure_name measure_expr measure_items m) ix.measure_index es;
      entity_models = foldl (see_entity m) ix.entity_models es;
    }
fold_entities m ix [] = refl
fold_entities m ix (e ∷ es) =
    fold_entities m (add_entity m ix e) es
    ∙ ap
        (λ (s : SemanticLowering).
          let r : SemanticLowering = record {
            dim_index = foldl (push_entity dim_name dim_sql dim_items m) s.dim_index es;
            measure_index =
                foldl (push_entity measure_name measure_expr measure_items m) s.measure_index es;
            entity_models = foldl (see_entity m) s.entity_models es;
          } in
          r)
        (add_entity_lem m ix e)

fold_models :
    (ix : SemanticLowering) (ms : ModelMap)
    → foldl add_model ix ms ≡ record {
      dim_index = foldl (push_model dim_name dim_sql dim_items) ix.dim_index ms;
      measure_index =
          foldl (push_model measure_name measure_expr measure_items) ix.measure_index ms;
      entity_models = foldl see_model ix.entity_models ms;
    }
unfolding add_model push_model see_model
fold_models ix [] = refl
fold_models ix ((m, model) ∷ ms) =
    fold_models (foldl (add_entity m) ix model.entities) ms
    ∙ ap
        (λ (s : SemanticLowering).
          let r : SemanticLowering = record {
            dim_index = foldl (push_model dim_name dim_sql dim_items) s.dim_index ms;
            measure_index =
                foldl (push_model measure_name measure_expr measure_items) s.measure_index ms;
            entity_models = foldl see_model s.entity_models ms;
          } in
          r)
        (fold_entities m ix model.entities)

module _ (ms : ModelMap) where
  -- The index of dimensions holds every declaration, in order, and nothing else.
  pub dim_index-new :
      (k : Text × Text) → get_or [] (lookup k (new ms).dim_index) ≡ declared_dims k ms
  unfolding new lookup
  dim_index-new k =
      ap (λ (s : SemanticLowering). at k s.dim_index) (fold_models empty_index ms)
      ∙ at-push_models dim_name dim_sql dim_items k ms []

  -- The index of measures holds every declaration, lowered, in order, and nothing else.
  pub measure_index-new :
      (k : Text × Text) → get_or [] (lookup k (new ms).measure_index) ≡ declared_measures k ms
  unfolding new lookup
  measure_index-new k =
      ap (λ (s : SemanticLowering). at k s.measure_index) (fold_models empty_index ms)
      ∙ at-push_models measure_name measure_expr measure_items k ms []

  pub entity_models-new : (new ms).entity_models ≡ foldl see_model [] ms
  unfolding new
  entity_models-new = ap (λ (s : SemanticLowering). s.entity_models) (fold_models empty_index ms)
