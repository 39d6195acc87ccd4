-- ===== src/Compiler/Lowering.antt =====
-- From semantic references to physical columns, may_core/src/compiler/lowering.rs. Of the state
-- the pass reads the map of models alone.
mod Declared
pub mod Index
pub mod Seen
pub mod Candidates
pub mod Refines
pub mod Fixed
pub mod Physical
use mathlib.Core.List.{foldl}
use maysemantic.Prelude.{
  Text, Bool, true, false, Option, some, none, List, [], ◌∷◌, ◌++◌, if◌then◌else◌, ◌==◌, map,
  filter, Result, ok, err, ◌>>=◌, lookup, upsert, insert_set, contains, get_or, traverse, not,
  text_key, pair_key,
}
use maysemantic.Ast.Node
use maysemantic.Ast.Node.{Expr, Exprs, OrderByExpr, SqlNode, Nodes, OptNode, OptNodes}
use maysemantic.Models.Core.{Dimension, Measure, Entity, SemanticModel, to_expr}

pub data LoweringError : Type 0 where
  entity_not_found : Text → LoweringError
  dimension_not_found : Text → Text → LoweringError
  measure_not_found : Text → Text → LoweringError
  ambiguous_dimension : Text → Text → List Text → LoweringError
  ambiguous_measure : Text → Text → List Text → LoweringError

-- `state.models`
abbrev pub ModelMap : Type 0
ModelMap = List (Text × SemanticModel)

pub record SemanticLowering : Type 0 where
  pub dim_index : List ((Text × Text) × List (Text × Text))
  pub measure_index : List ((Text × Text) × List (Text × Expr))
  pub entity_models : List (Text × List Text)

-- `index.entry(key).or_default().push(hit)`
abbrev pub push_hit {ℓ} :
    {A : Type ℓ}
    → Text × Text
    → Text × A
    → List ((Text × Text) × List (Text × A))
    → List ((Text × Text) × List (Text × A))
push_hit key hit = upsert key [] (λ hits. hits ++ (hit ∷ []))

add_dimension : Text → Entity → SemanticLowering → Dimension → SemanticLowering
add_dimension model_name entity ix dim = record ix {
  dim_index = push_hit (entity.name, dim.name) (model_name, dim.sql) ix.dim_index;
}

add_measure : Text → Entity → SemanticLowering → Measure → SemanticLowering
add_measure model_name entity ix measure = record ix {
  measure_index =
      push_hit (entity.name, measure.name)
        (model_name, to_expr measure.agg (Node.Expr.column measure.sql)) ix.measure_index;
}

add_entity : Text → SemanticLowering → Entity → SemanticLowering
unfolding add_dimension add_measure
add_entity model_name ix entity =
    let seen = record ix {
      entity_models = upsert entity.name [] (insert_set model_name) ix.entity_models;
    } in
    let dims = foldl (add_dimension model_name entity) seen entity.dimensions in
    foldl (add_measure model_name entity) dims entity.measures

add_model : SemanticLowering → Text × SemanticModel → SemanticLowering
unfolding add_entity
add_model ix (model_name, model) = foldl (add_entity model_name) ix model.entities

abbrev pub empty_index : SemanticLowering
empty_index = record { dim_index = []; measure_index = []; entity_models = [] }

-- `SemanticLowering::new`
unfoldable pub new : ModelMap → SemanticLowering
unfolding add_model
new models = foldl add_model empty_index models

-- `entity_seen`
pub entity_seen : SemanticLowering → Option Text → Text → Bool
entity_seen ix none entity = elim (lookup entity ix.entity_models) [ none ↦ false | some _ ↦ true ]
entity_seen ix (some m_name) entity = elim (lookup entity ix.entity_models) [
  | none ↦ false
  | some models ↦ contains models m_name
]

-- The hits of the model that is named, or of all models.
unfoldable pub select_hits {ℓ} : {A : Type ℓ} → Option Text → List (Text × A) → List (Text × A)
select_hits none hits = hits
select_hits (some filter_m) hits = filter (λ hit. hit.0 == filter_m) hits

hits_at {ℓ} :
    {A : Type ℓ}
    → Option Text
    → Text × Text
    → List ((Text × Text) × List (Text × A))
    → List (Text × A)
unfolding select_hits
hits_at model key index = select_hits model (get_or [] (lookup key index))

unfoldable pub pick_dimension : Bool → Text → Text → List (Text × Text) → Result LoweringError Expr
pick_dimension seen entity dimension [] =
    if not seen then err (entity_not_found entity) else err (dimension_not_found entity dimension)
pick_dimension seen entity dimension ((m, sql) ∷ []) = ok (Node.Expr.column sql)
pick_dimension seen entity dimension hits =
    err (ambiguous_dimension entity dimension (map (λ hit. hit.0) hits))

unfoldable pub pick_measure : Bool → Text → Text → List (Text × Expr) → Result LoweringError Expr
pick_measure seen entity measure [] =
    if not seen then err (entity_not_found entity) else err (measure_not_found entity measure)
pick_measure seen entity measure ((m, expr) ∷ []) = ok expr
pick_measure seen entity measure hits =
    err (ambiguous_measure entity measure (map (λ hit. hit.0) hits))

module _ (ix : SemanticLowering) where
  unfoldable pub lower_dimension : Option Text → Text → Text → Result LoweringError Expr
  unfolding entity_seen hits_at pick_dimension
  lower_dimension model entity dimension =
      pick_dimension (entity_seen ix model entity) entity dimension
        (hits_at model (entity, dimension) ix.dim_index)

  unfoldable pub lower_measure : Option Text → Text → Text → Result LoweringError Expr
  unfolding entity_seen hits_at pick_measure
  lower_measure model entity measure =
      pick_measure (entity_seen ix model entity) entity measure
        (hits_at model (entity, measure) ix.measure_index)

  unfoldable mutual
    pub lower_expr : Expr → Result LoweringError Expr
    lower_expr (Node.dimension_ref model entity dimension) = lower_dimension model entity dimension
    lower_expr (Node.measure_ref model entity measure) = lower_measure model entity measure
    lower_expr (Node.binary_op left op right) = do
      left' ← lower_expr left
      right' ← lower_expr right
      ok (Node.binary_op left' op right')
    lower_expr (Node.function name args) = do
      args' ← lower_exprs args
      ok (Node.function name args')
    lower_expr (Node.column c) = ok (Node.column c)
    lower_expr (Node.literal v) = ok (Node.literal v)
    lower_expr (Node.raw sql) = ok (Node.raw sql)
    lower_expr (Node.aliased expr alias) = do expr' ← lower_expr expr; ok (Node.aliased expr' alias)
    lower_expr (Node.date_trunc granularity col) = do
      col' ← lower_expr col
      ok (Node.date_trunc granularity col')
    lower_expr (Node.cast expr target_type) = do
      expr' ← lower_expr expr
      ok (Node.cast expr' target_type)
    lower_expr (Node.json_access col path) = do
      col' ← lower_expr col
      ok (Node.json_access col' path)
    lower_expr (Node.unnest expr) = do expr' ← lower_expr expr; ok (Node.unnest expr')
    lower_expr (Node.count_distinct inner) = do
      inner' ← lower_expr inner
      ok (Node.count_distinct inner')
    lower_expr Node.count_star = ok Node.count_star

    pub lower_exprs : Exprs → Result LoweringError Exprs
    lower_exprs Node.nil = ok Node.nil
    lower_exprs (Node.cons e es) = do e' ← lower_expr e; es' ← lower_exprs es; ok (Node.cons e' es')

  unfoldable pub lower_order : OrderByExpr → Result LoweringError OrderByExpr
  lower_order o = do e ← lower_expr o.expr; ok (record { expr = e; direction = o.direction })

  unfoldable mutual
    pub lower_node : SqlNode → Result LoweringError SqlNode
    lower_node (Node.query ctes sel src where_ group_by having order_by limit offset) = do
      ctes' ← lower_ctes ctes
      sel' ← lower_node sel
      src' ← lower_node src
      where' ← lower_opt where_
      group_by' ← lower_opt group_by
      having' ← lower_opt having
      order_by' ← traverse lower_order order_by
      ok (Node.query ctes' sel' src' where' group_by' having' order_by' limit offset)
    lower_node (Node.cte alias body) = do body' ← lower_node body; ok (Node.cte alias body')
    lower_node (Node.select exprs) = do lowered ← lower_exprs exprs; ok (Node.select lowered)
    lower_node (Node.from source joins) = do
      source' ← lower_node source
      joins' ← lower_nodes joins
      ok (Node.from source' joins')
    lower_node (Node.join join_type relation on) = do
      relation' ← lower_node relation
      on' ← lower_expr on
      ok (Node.join join_type relation' on')
    lower_node (Node.where_clause expr) = do expr' ← lower_expr expr; ok (Node.where_clause expr')
    lower_node (Node.group_by exprs) = do lowered ← lower_exprs exprs; ok (Node.group_by lowered)
    lower_node (Node.having expr) = do expr' ← lower_expr expr; ok (Node.having expr')
    lower_node (Node.table t) = ok (Node.table t)
    lower_node (Node.aliased_table t alias) = ok (Node.aliased_table t alias)
    lower_node (Node.time_spine granularity) = ok (Node.time_spine granularity)

    pub lower_nodes : Nodes → Result LoweringError Nodes
    lower_nodes Node.end = ok Node.end
    lower_nodes (Node.node n ns) = do n' ← lower_node n; ns' ← lower_nodes ns; ok (Node.node n' ns')

    pub lower_opt : OptNode → Result LoweringError OptNode
    lower_opt Node.absent = ok Node.absent
    lower_opt (Node.present n) = do n' ← lower_node n; ok (Node.present n')

    pub lower_ctes : OptNodes → Result LoweringError OptNodes
    lower_ctes Node.absent_list = ok Node.absent_list
    lower_ctes (Node.present_list ns) = do ns' ← lower_nodes ns; ok (Node.present_list ns')
