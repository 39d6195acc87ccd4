-- ===== src/Compiler/Rls.antt =====
-- Row-level security, may_core/src/compiler/rls.rs. Of the state the pass reads the map of models
-- alone; the warnings that it logs are not modelled, nor is the `debug_assert!`.
pub mod Enforced
pub mod Named
pub mod Kept
pub mod Inject
pub mod Writable
pub mod Aliased
pub mod Nested
use mathlib.Core.List.{foldl}
use mathlib.Core.Bool.{decide}
use maysemantic.Prelude.{
  Text, str, Option, some, none, List, [], ◌∷◌, ◌++◌, if◌then◌else◌, ◌==◌, Result, ok, ◌>>=◌, ok_or,
  traverse, find, filter, lookup, text_key, values, sort_by, text_leb, fold_result, any,
}
use maysemantic.Ast.Node
use maysemantic.Ast.Node.{Expr, Expr-discrete, SqlNode, Nodes, OptNode, OptNodes}
use maysemantic.Ast.Combiners.{Floats, and_expr, eq_expr, literal_str, literal_num, literal_bool}
use maysemantic.Models.Core.{Dimension, DimensionType, Entity, RlsPolicy, SemanticModel}
use maysemantic.Compiler.Lowering.{ModelMap}

pub data RlsError : Type 0 where
  unknown_dimension : Text → Text → RlsError

pub record UserContext : Type 0 where
  pub claims : List (Text × Text)

unfoldable pub get_claim : UserContext → Text → Option Text
get_claim ctx key = lookup key ctx.claims

abbrev pub table_name : SqlNode → List Text
table_name (Node.table name) = name ∷ []
table_name _ = []

abbrev pub join_table : SqlNode → List Text
join_table (Node.join join_type relation on) = table_name relation
join_table _ = []

abbrev pub join_tables : Nodes → List Text
join_tables Node.end = []
join_tables (Node.node j ns) = join_table j ++ join_tables ns

-- `collect_table_names`
abbrev pub collect_table_names : SqlNode → List Text
collect_table_names (Node.from source joins) = table_name source ++ join_tables joins
collect_table_names _ = []

unfoldable pub deny_all : Expr
deny_all = eq_expr (Node.literal (str "1")) (Node.literal (str "0"))

unfoldable pub entities_of : List SemanticModel → List Entity
entities_of [] = []
entities_of (m ∷ ms) = m.entities ++ entities_of ms

unfoldable pub find_entities_for_table : ModelMap → Text → List Entity
unfolding entities_of
find_entities_for_table models table_name =
    sort_by (λ a b. text_leb a.name b.name)
      (filter (λ entity. entity.table == table_name) (entities_of (values models)))

-- `if !predicates.contains(&pred) { predicates.push(pred) }`
pub add_predicate : List Expr → Expr → List Expr
add_predicate predicates pred =
    if any (λ p. decide (Expr-discrete p pred)) predicates
    then predicates
    else predicates ++ (pred ∷ [])

module _ ⦃F : Floats⦄ where
  literal_for : DimensionType → Text → Option Expr
  literal_for DimensionType.number v = literal_num v
  literal_for DimensionType.boolean v = literal_bool v
  literal_for _ v = some (literal_str v)

  claim_predicate : Dimension → Option Text → Expr
  unfolding literal_for
  claim_predicate d none = deny_all
  claim_predicate d (some v) = elim (literal_for d.dimension_type v) [
    | some l ↦ eq_expr (Node.column d.sql) l
    | none ↦ deny_all
  ]

module _ ⦃F : Floats⦄ (user_ctx : UserContext) where
  -- the closure over one policy
  unfoldable pub policy_predicate : Entity → RlsPolicy → Result RlsError Expr
  unfolding claim_predicate
  policy_predicate entity policy = do
    d ←
        ok_or (find (λ d. d.name == policy.dimension) entity.dimensions)
          (unknown_dimension entity.name policy.dimension)
    ok (claim_predicate d (get_claim user_ctx policy.claim_key))

  unfoldable pub predicates_for_entity : Entity → Result RlsError (List Expr)
  predicates_for_entity entity = traverse (policy_predicate entity) entity.rls_policies

unfoldable pub merge_where : OptNode → Expr → OptNode
merge_where (Node.present (Node.where_clause existing)) combined =
    Node.present (Node.where_clause (and_expr existing combined))
merge_where _ combined = Node.present (Node.where_clause combined)

-- step 2 to 4: the predicates are folded and merged into the WHERE clause
unfoldable pub add_where : OptNode → List Expr → OptNode
unfolding merge_where
add_where where_ [] = where_
add_where where_ (p ∷ ps) = merge_where where_ (foldl and_expr p ps)

module _ ⦃F : Floats⦄ (user_ctx : UserContext) (models : ModelMap) where
  pub gather_entity : List Expr → Entity → Result RlsError (List Expr)
  unfolding add_predicate
  gather_entity predicates entity = do
    preds ← predicates_for_entity user_ctx entity
    ok (foldl add_predicate predicates preds)

  pub gather_table : List Expr → Text → Result RlsError (List Expr)
  gather_table predicates table =
      fold_result gather_entity predicates (find_entities_for_table models table)

  -- every predicate for the base tables, without duplicates
  unfoldable pub gather : List Text → Result RlsError (List Expr)
  unfolding gather_entity gather_table
  gather tables = fold_result gather_table [] tables

  unfoldable mutual
    unfolding add_where

    pub inject : SqlNode → Result RlsError SqlNode
    inject (Node.query ctes sel src where_ group_by having order_by limit offset) = do
      ctes' ← inject_ctes ctes
      src' ← inject_into_relations src
      predicates ← gather (collect_table_names src')
      ok (
          Node.query ctes' sel src' (add_where where_ predicates) group_by having order_by limit
            offset)
    inject other = ok other

    pub inject_into_relations : SqlNode → Result RlsError SqlNode
    inject_into_relations (Node.from source joins) = do
      source' ← inject source
      joins' ← inject_joins joins
      ok (Node.from source' joins')
    inject_into_relations other = ok other

    pub inject_joins : Nodes → Result RlsError Nodes
    inject_joins Node.end = ok Node.end
    inject_joins (Node.node n ns) = do
      n' ← inject_join n
      ns' ← inject_joins ns
      ok (Node.node n' ns')

    pub inject_join : SqlNode → Result RlsError SqlNode
    inject_join (Node.join join_type relation on) = do
      relation' ← inject relation
      ok (Node.join join_type relation' on)
    inject_join other = ok other

    pub inject_ctes : OptNodes → Result RlsError OptNodes
    inject_ctes Node.absent_list = ok Node.absent_list
    inject_ctes (Node.present_list ns) = do ns' ← inject_cte_list ns; ok (Node.present_list ns')

    pub inject_cte_list : Nodes → Result RlsError Nodes
    inject_cte_list Node.end = ok Node.end
    inject_cte_list (Node.node n ns) = do
      n' ← inject_cte n
      ns' ← inject_cte_list ns
      ok (Node.node n' ns')

    pub inject_cte : SqlNode → Result RlsError SqlNode
    inject_cte (Node.cte alias body) = do body' ← inject body; ok (Node.cte alias body')
    inject_cte other = ok other
