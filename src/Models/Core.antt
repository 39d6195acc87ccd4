-- ===== src/Models/Core.antt =====
-- The definitions that a model file declares, and their validation, may_core/src/models/core.rs,
-- with `RlsPolicy` of may_core/src/compiler/rls.rs. Of a `ValidationErrors` only whether there is
-- one is kept.
use maysemantic.Prelude.{
  ℕ, Text, str, Bool, false, ◌&&◌, ◌||◌, not, Option, List, [], ◌∷◌, nat_eq, is_ascii_alphabetic,
  is_ascii_alphanumeric, is_ascii_lowercase, is_ascii_digit, split, trim, all,
}
use maysemantic.Ast.Node.{Expr, function, count_distinct, nil, cons, JoinType}

pub data DimensionType : Type 0 where
  string number boolean time : DimensionType

pub record Dimension : Type 0 where
  pub name : Text
  pub description : Option Text
  pub dimension_type : DimensionType
  pub sql : Text

pub data AggregationType : Type 0 where
  sum count average min max distinct_count : AggregationType

pub AggregationType-discrete : Discrete AggregationType
AggregationType-discrete = hlevel

agg_name : AggregationType → Text
agg_name AggregationType.sum = str "SUM"
agg_name AggregationType.count = str "COUNT"
agg_name AggregationType.average = str "AVG"
agg_name AggregationType.min = str "MIN"
agg_name AggregationType.max = str "MAX"
agg_name AggregationType.distinct_count = []

-- `AggregationType::to_expr`
unfoldable pub to_expr : AggregationType → Expr → Expr
unfolding agg_name
to_expr AggregationType.distinct_count c = count_distinct c
to_expr a c = function (agg_name a) (cons c nil)

pub record Measure : Type 0 where
  pub name : Text
  pub description : Option Text
  pub agg : AggregationType
  pub sql : Text

pub data EntityType : Type 0 where
  fact dimension : EntityType

pub record RlsPolicy : Type 0 where
  pub claim_key : Text
  pub dimension : Text

pub record Entity : Type 0 where
  pub name : Text
  pub description : Option Text
  pub table : Text
  pub primary_key : Text
  pub dimensions : List Dimension
  pub measures : List Measure
  pub entity_type : EntityType
  pub rls_policies : List RlsPolicy

pub record Metric : Type 0 where
  pub name : Text
  pub description : Option Text
  pub measure : Text
  pub dimensions : List Text

pub record JoinDefinition : Type 0 where
  pub left_entity : Text
  pub left_column : Text
  pub right_entity : Text
  pub right_column : Text
  pub join_type : JoinType

pub record SemanticModel : Type 0 where
  pub name : Text
  pub entities : List Entity
  pub metrics : List Metric
  pub joins : List JoinDefinition

unfoldable pub name_char : ℕ → Bool
name_char c = is_ascii_lowercase c || is_ascii_digit c || nat_eq c b'_'

-- `^[a-z_][a-z0-9_]*$`
unfoldable pub validate_name : Text → Bool
unfolding name_char
validate_name [] = false
validate_name (c ∷ s) = (is_ascii_lowercase c || nat_eq c b'_') && all name_char s

-- the closure `is_ident`
unfoldable pub is_ident : Text → Bool
is_ident [] = false
is_ident (c ∷ s) =
    (is_ascii_alphabetic c || nat_eq c b'_')
    && all (λ d. is_ascii_alphanumeric d || nat_eq d b'_') s

two_idents : List Text → Bool
two_idents (p ∷ q ∷ []) = is_ident (trim p) && is_ident (trim q)
two_idents _ = false

unfoldable pub validate_bare_sql : Text → Bool
unfolding two_idents
validate_bare_sql sql = not (two_idents (split b'.' sql))

-- The `Validate` implementations that the attributes ask for.
validate_dimension : Dimension → Bool
validate_dimension d = validate_name d.name && validate_bare_sql d.sql

validate_measure : Measure → Bool
validate_measure m = validate_name m.name && validate_bare_sql m.sql

validate_policy : RlsPolicy → Bool
validate_policy p = validate_name p.claim_key && validate_name p.dimension

validate_entity : Entity → Bool
unfolding validate_dimension validate_measure validate_policy
validate_entity e =
    validate_name e.name
    && validate_name e.primary_key
    && all validate_dimension e.dimensions
    && all validate_measure e.measures
    && all validate_policy e.rls_policies

validate_metric : Metric → Bool
validate_metric m = validate_name m.name

validate_join : JoinDefinition → Bool
validate_join j =
    validate_name j.left_entity
    && validate_name j.left_column
    && validate_name j.right_entity
    && validate_name j.right_column

-- `SemanticModel::validate`
unfoldable pub validate : SemanticModel → Bool
unfolding validate_entity validate_metric validate_join
validate m =
    validate_name m.name
    && all validate_entity m.entities
    && all validate_metric m.metrics
    && all validate_join m.joins
