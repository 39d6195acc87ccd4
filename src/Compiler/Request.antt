-- ===== src/Compiler/Request.antt =====
-- The request of the compiler, and its validation: may_core/src/compiler/request.rs and
-- request_parser.rs. Of the state the parser reads the map of models alone.
use maysemantic.Prelude.{
  ℕ, Text, Bool, Option, List, [], ◌∷◌, if◌then◌else◌, ◌==◌, not, any, values, trim, Result, ok,
  err,
}
use maysemantic.Models.Core.{SemanticModel}
use maysemantic.Compiler.Lowering.{ModelMap}

pub data FilterOperator : Type 0 where
  eq not_eq gt lt gte lte is_in : FilterOperator

pub record SemanticFilter : Type 0 where
  pub dimension : Text
  pub operator : FilterOperator
  pub value : Text

pub record SemanticRequest : Type 0 where
  pub metric_name : Text
  pub dimensions : List Text
  pub filters : List SemanticFilter
  pub time_granularity : Option Text
  pub limit : Option ℕ

pub data RequestParseError : Type 0 where
  empty_metric_name : RequestParseError
  metric_not_found dimension_not_found : Text → RequestParseError

-- `model.metrics.iter().any(|m| m.name == metric_name)`
unfoldable pub has_metric : Text → SemanticModel → Bool
has_metric metric_name model = any (λ m. m.name == metric_name) model.metrics

has_dimension : Text → SemanticModel → Bool
has_dimension dim_name model = any (λ e. any (λ d. d.name == dim_name) e.dimensions) model.entities

-- step 3, the loop over the dimensions
check_dimensions : ModelMap → List Text → Result RequestParseError (Unit {0})
unfolding has_dimension
check_dimensions models [] = ok tt
check_dimensions models (dim_name ∷ rest) =
    let checked = check_dimensions models rest in
    if not (any (has_dimension dim_name) (values models))
    then err (dimension_not_found dim_name)
    else checked

unfoldable pub validate : ModelMap → SemanticRequest → Result RequestParseError (Unit {0})
unfolding check_dimensions
validate models request =
    if trim request.metric_name == []
    then err empty_metric_name
    else if not (any (has_metric request.metric_name) (values models))
    then err (metric_not_found request.metric_name)
    else check_dimensions models request.dimensions
