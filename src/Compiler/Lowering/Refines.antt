-- ===== src/Compiler/Lowering/Refines.antt =====
-- Lowering a reference is a search of the declarations: may_core/src/compiler/lowering.rs.
use maysemantic.Prelude.{Text, Option, Bool, true, false, List, [], ◌∷◌, ◌≡◌, refl}
use maysemantic.Ast.Node.{Expr, dimension_ref, measure_ref}
use maysemantic.Compiler.Lowering.{
  ModelMap, new, lower_expr, lower_dimension, lower_measure, hits_at, select_hits, pick_dimension,
  pick_measure, dimension_not_found, ambiguous_dimension, measure_not_found, ambiguous_measure,
}
use maysemantic.Compiler.Lowering.Candidates.{Candidates, Verdict, select_hits-Candidates}
use maysemantic.Compiler.Lowering.Index.{
  declared_dims, declared_measures, dim_index-new, measure_index-new,
}
use maysemantic.Compiler.Lowering.Seen.{declares_entity, entity_seen-new}

module _ (entity name : Text) where
  pick_dimension-Verdict :
      (seen : Bool) (hits : List (Text × Text))
      → Verdict
          (λ sql. Expr.column sql)
          entity
          (dimension_not_found entity name)
          (ambiguous_dimension entity name)
          seen
          hits
          (pick_dimension seen entity name hits)
  unfolding pick_dimension
  pick_dimension-Verdict true [] = Verdict.no_name refl
  pick_dimension-Verdict false [] = Verdict.no_entity refl
  pick_dimension-Verdict seen ((m, sql) ∷ []) = Verdict.only_one m sql
  pick_dimension-Verdict seen (x ∷ y ∷ hits) = Verdict.several x y hits

  pick_measure-Verdict :
      (seen : Bool) (hits : List (Text × Expr))
      → Verdict
          (λ aggregate. aggregate)
          entity
          (measure_not_found entity name)
          (ambiguous_measure entity name)
          seen
          hits
          (pick_measure seen entity name hits)
  unfolding pick_measure
  pick_measure-Verdict true [] = Verdict.no_name refl
  pick_measure-Verdict false [] = Verdict.no_entity refl
  pick_measure-Verdict seen ((m, aggregate) ∷ []) = Verdict.only_one m aggregate
  pick_measure-Verdict seen (x ∷ y ∷ hits) = Verdict.several x y hits

module _ (ms : ModelMap) (model : Option Text) (entity name : Text) where
  pub lower_expr-dimension_ref :
      lower_expr (new ms) (dimension_ref model entity name)
      ≡ pick_dimension
          (declares_entity model entity ms)
          entity
          name
          (select_hits model (declared_dims (entity, name) ms))
  unfolding lower_expr lower_dimension hits_at
  lower_expr-dimension_ref = rw (entity_seen-new, dim_index-new) refl

  pub lower_expr-measure_ref :
      lower_expr (new ms) (measure_ref model entity name)
      ≡ pick_measure
          (declares_entity model entity ms)
          entity
          name
          (select_hits model (declared_measures (entity, name) ms))
  unfolding lower_expr lower_measure hits_at
  lower_expr-measure_ref = rw (entity_seen-new, measure_index-new) refl

  -- Of the declarations of a dimension by the models, those of the model that the reference names,
  -- or all where it names none, decide what a dimension reference is lowered to: the column of the
  -- only one; for several, an error that lists their models; for none, an error that says whether
  -- the entity is declared (there or anywhere) and the dimension unknown, or the entity unknown.
  pub lower_dimension_ref :
      (candidates : List (Text × Text)) × Candidates model
        (declared_dims (entity, name) ms)
        candidates
      × Verdict
          (λ sql. Expr.column sql)
          entity
          (dimension_not_found entity name)
          (ambiguous_dimension entity name)
          (declares_entity model entity ms)
          candidates
          (lower_expr (new ms) (dimension_ref model entity name))
  lower_dimension_ref =
      let hits = declared_dims (entity, name) ms in
      (
        select_hits model hits,
        select_hits-Candidates model hits,
        rw (lower_expr-dimension_ref) (
            pick_dimension-Verdict entity name (declares_entity model entity ms)
              (select_hits model hits)),
      )

  -- Of the declarations of a measure by the models, those of the model that the reference names, or
  -- all where it names none, decide what a measure reference is lowered to: the aggregate of the
  -- only one; for several, an error that lists their models; for none, an error that says whether
  -- the entity is declared (there or anywhere) and the measure unknown, or the entity unknown.
  pub lower_measure_ref :
      (candidates : List (Text × Expr)) × Candidates model
        (declared_measures (entity, name) ms)
        candidates
      × Verdict
          (λ aggregate. aggregate)
          entity
          (measure_not_found entity name)
          (ambiguous_measure entity name)
          (declares_entity model entity ms)
          candidates
          (lower_expr (new ms) (measure_ref model entity name))
  lower_measure_ref =
      let hits = declared_measures (entity, name) ms in
      (
        select_hits model hits,
        select_hits-Candidates model hits,
        rw (lower_expr-measure_ref) (
            pick_measure-Verdict entity name (declares_entity model entity ms)
              (select_hits model hits)),
      )
