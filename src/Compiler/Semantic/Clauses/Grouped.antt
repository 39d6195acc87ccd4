-- ===== src/Compiler/Semantic/Clauses/Grouped.antt =====
-- The query groups by what it selects.
use maysemantic.Prelude.{Text, Option, none, some, List, [], ◌∷◌, ◌++◌, ◌≡◌, ok, refl, sym, ap, ◌∙◌}
use maysemantic.Ast.Node
use maysemantic.Ast.Node.{Expr, Exprs, SqlNode, OptNode}
use maysemantic.Ast.Builder.{
  to_exprs, dimension_refs, measure_refs, build_semantic_select, build_semantic_group_by,
}
use maysemantic.Compiler.MetricResolver.{ResolvedMetric}
use maysemantic.Compiler.Semantic.{trunc_expr}
use maysemantic.Compiler.Semantic.Clauses.{
  select_clause, group_by_clause, group_by_dims, group_by_trunc, dims_for_select,
  measures_for_select,
}

-- The columns of a select list, less their aliases and less the measures.
abbrev pub add_key : Expr → List Expr → List Expr
add_key (Node.measure_ref model entity measure) keys = keys
add_key (Node.aliased e alias) keys = e ∷ keys
add_key e keys = e ∷ keys

abbrev pub keys_of : Exprs → List Expr
keys_of Node.nil = []
keys_of (Node.cons e es) = add_key e (keys_of es)

abbrev pub selected_keys : SqlNode → List Expr
selected_keys (Node.select es) = keys_of es
selected_keys n = []

abbrev from_exprs : Exprs → List Expr
from_exprs Node.nil = []
from_exprs (Node.cons e es) = e ∷ from_exprs es

abbrev pub grouped_by : OptNode → List Expr
grouped_by (Node.present (Node.group_by es)) = from_exprs es
grouped_by o = []

keys_of-select :
    (m : Option Text) (ds ms : List (Text × Text))
    → keys_of (to_exprs (dimension_refs m ds ++ measure_refs m ms)) ≡ dimension_refs m ds
unfolding dimension_refs measure_refs
keys_of-select m [] [] = refl
keys_of-select m [] (x ∷ ms) = keys_of-select m [] ms
keys_of-select m (d ∷ ds) ms = ap (λ es. Node.dimension_ref m d.0 d.1 ∷ es) (keys_of-select m ds ms)

from_exprs-to_exprs : (es : List Expr) → from_exprs (to_exprs es) ≡ es
from_exprs-to_exprs [] = refl
from_exprs-to_exprs (e ∷ es) = ap (λ z. e ∷ z) (from_exprs-to_exprs es)

grouped-group_by_dims :
    (name : Text) (ds : List (Text × Text))
    → grouped_by (group_by_dims name ds) ≡ dimension_refs (some name) ds
unfolding group_by_dims build_semantic_group_by dimension_refs
grouped-group_by_dims name [] = refl
grouped-group_by_dims name (d ∷ ds) = from_exprs-to_exprs (dimension_refs (some name) (d ∷ ds))

grouped-group_by_trunc :
    (e : Expr) (name : Text) (ds : List (Text × Text))
    → grouped_by (group_by_trunc (some e) (group_by_dims name ds))
      ≡ e ∷ grouped_by (group_by_dims name ds)
unfolding group_by_trunc group_by_dims build_semantic_group_by
grouped-group_by_trunc e name [] = refl
grouped-group_by_trunc e name (d ∷ ds) = refl

same_columns :
    (model_name : Text) (r : ResolvedMetric)
    → selected_keys
        (build_semantic_select (some model_name) (dims_for_select r) (measures_for_select r))
      ≡ grouped_by (group_by_dims model_name (dims_for_select r))
unfolding build_semantic_select
same_columns model_name r =
    keys_of-select (some model_name) (dims_for_select r) (measures_for_select r)
    ∙ sym (grouped-group_by_dims model_name (dims_for_select r))

-- The query groups by exactly the columns that it selects besides the measure, in their order: the
-- truncated time dimension where the request has a granularity, then the dimensions.
group_by_clause_covers :
    (model_name : Text) (r : ResolvedMetric) (granularity : Option Text) (trunc : Option Expr)
    → trunc_expr model_name r.measure_entity granularity ≡ ok trunc
    → selected_keys (select_clause model_name r trunc granularity)
      ≡ grouped_by (group_by_clause model_name r trunc)
unfolding select_clause group_by_clause build_semantic_select trunc_expr
group_by_clause_covers model_name r none none h = same_columns model_name r
group_by_clause_covers model_name r none (some e) h = cc
group_by_clause_covers model_name r (some g) none h = same_columns model_name r
group_by_clause_covers model_name r (some g) (some e) h =
    ap (λ es. e ∷ es) (same_columns model_name r)
    ∙ sym (grouped-group_by_trunc e model_name (dims_for_select r))
