-- ===== src/Compiler/Rls/Enforced.antt =====
-- Every policy of every entity of a base table reaches the WHERE clause.
use mathlib.Core.Logic.{⊎_elim}
use mathlib.Core.Bool.{decide_iff, decide}
use mathlib.Core.List.{[], ◌∷◌, foldl, Memᴰ}
use mathlib.Core.List.Memᴰ
use maysemantic.Prelude.{
  refl, sym, inr, mem_of_any, inl, ok-injective, Memᴰ-filter, fold_result_reaches, mem-traverse,
  subst, mem-sort_by, >>=-eq-ok, values, true, str, fold_result_keeps, eq_refl, arith, Bool-cases,
  Bool, Text, List, all, any, ok, ◌==◌, ◌&&◌, if◌then◌else◌, ◌≡◌,
}
use maysemantic.Ast.Node
use maysemantic.Ast.Node.{Expr-discrete, Expr, SqlNode, Nodes, OptNode, OptNodes}
use maysemantic.Ast.Combiners.{Floats, and_expr}
use maysemantic.Models.Core.{Entity, RlsPolicy}
use maysemantic.Compiler.Lowering.{ModelMap}
use maysemantic.Compiler.Rls.{
  UserContext, add_predicate, add_where, policy_predicate, predicates_for_entity, gather_entity,
  gather_table, gather, entities_of, find_entities_for_table,
}

-- The rows that a predicate lets through, when `truth` says which rows each atom lets through.
unfoldable pub holds : (Expr → Bool) → Expr → Bool
holds truth (Node.binary_op left op right) =
    if op == str "AND"
    then holds truth left && holds truth right
    else truth (Node.binary_op left op right)
holds truth e = truth e

unfoldable pub where_holds : (Expr → Bool) → OptNode → Bool
where_holds truth (Node.present (Node.where_clause e)) = holds truth e
where_holds truth _ = true

holds-and_expr :
    (truth : Expr → Bool) (a b : Expr)
    → holds truth (and_expr a b) ≡ (holds truth a && holds truth b)
unfolding holds and_expr
holds-and_expr truth a b = rw (eq_refl (str "AND")) refl

holds_fold :
    (truth : Expr → Bool) (p : Expr) (ps : List Expr)
    → holds truth (foldl and_expr p ps) ≡ (holds truth p && all (holds truth) ps)
unfolding all
holds_fold truth p [] = ground arith
holds_fold truth p (q ∷ ps) =
    ground (arith, holds_fold truth (and_expr p q) ps, holds-and_expr truth p q)

-- The merged clause lets through exactly the rows that the old clause and every predicate let
-- through.
pub where_holds-add_where :
    (truth : Expr → Bool) (w : OptNode) (ps : List Expr)
    → where_holds truth (add_where w ps) ≡ (where_holds truth w && all (holds truth) ps)
unfolding add_where all where_holds
where_holds-add_where truth w [] = ground arith
where_holds-add_where truth Node.absent (p ∷ ps) = holds_fold truth p ps
where_holds-add_where truth (Node.present (Node.where_clause e)) (p ∷ ps) =
    ground (arith, holds-and_expr truth e (foldl and_expr p ps), holds_fold truth p ps)
where_holds-add_where truth (Node.present n) (p ∷ ps) = holds_fold truth p ps

mem-add_predicate : (p q : Expr) (ps : List Expr) → Memᴰ p ps → Memᴰ p (add_predicate ps q)
unfolding add_predicate
mem-add_predicate p q ps m = elim (Bool-cases (any (λ x. decide (Expr-discrete x q)) ps)) [
  | inl e ↦ rw e m
  | inr e ↦ rw e (Memᴰ.append_left _ m)
]

mem-add_predicate_self : (p : Expr) (ps : List Expr) → Memᴰ p (add_predicate ps p)
unfolding add_predicate
mem-add_predicate_self p ps = elim (Bool-cases (any (λ x. decide (Expr-discrete x p)) ps)) [
  | inl e ↦ rw e (
      mem_of_any (λ x. decide (Expr-discrete x p)) p ps
        (λ x h. sym ((decide_iff (Expr-discrete x p)).0 h)) e)
  | inr e ↦ rw e (Memᴰ.append_right ps (Memᴰ.head refl))
]

mem_fold_old : (p : Expr) (ps qs : List Expr) → Memᴰ p ps → Memᴰ p (foldl add_predicate ps qs)
mem_fold_old p ps [] m = m
mem_fold_old p ps (q ∷ qs) m = mem_fold_old p (add_predicate ps q) qs (mem-add_predicate p q ps m)

mem_fold_new : (p : Expr) (ps qs : List Expr) → Memᴰ p qs → Memᴰ p (foldl add_predicate ps qs)
mem_fold_new p ps [] m = absurd (Memᴰ.not-nil m)
mem_fold_new p ps (q ∷ qs) m =
    ⊎_elim
      (λ e.
        mem_fold_old p (add_predicate ps q) qs
          (subst (λ z. Memᴰ p (add_predicate ps z)) e (mem-add_predicate_self p ps)))
      (mem_fold_new p (add_predicate ps q) qs) (Memᴰ.cases_cons m)

module _ ⦃F : Floats⦄ (ctx : UserContext) (ms : ModelMap) (entity : Entity)
    (policy : RlsPolicy) where
  abbrev IsCovered : List Expr → Type 0
  IsCovered preds = (p : Expr) × (policy_predicate ctx entity policy ≡ ok p) × Memᴰ p preds

  entity_keeps :
      (b : List Expr) (x : Entity) (b' : List Expr)
      → gather_entity ctx ms b x ≡ ok b'
      → IsCovered b
      → IsCovered b'
  unfolding gather_entity
  entity_keeps b x b' h (p, e, m) =
      let (ps, _, done) = >>=-eq-ok (predicates_for_entity ctx x) _ h in
      (p, e, subst (Memᴰ p) (ok-injective done) (mem_fold_old p b ps m))

  entity_brings :
      Memᴰ policy entity.rls_policies
      → (b b' : List Expr) → gather_entity ctx ms b entity ≡ ok b'
      → IsCovered b'
  unfolding gather_entity predicates_for_entity
  entity_brings m b b' h =
      let (ps, t, done) = >>=-eq-ok (predicates_for_entity ctx entity) _ h in
      let (p, e, m') = mem-traverse (policy_predicate ctx entity) policy entity.rls_policies t m in
      (p, e, subst (Memᴰ p) (ok-injective done) (mem_fold_new p b ps m'))

  table_keeps :
      (b : List Expr) (t : Text) (b' : List Expr)
      → gather_table ctx ms b t ≡ ok b'
      → IsCovered b
      → IsCovered b'
  unfolding gather_table
  table_keeps b t b' h =
      fold_result_keeps (gather_entity ctx ms) IsCovered entity_keeps (find_entities_for_table ms t)
        b b' h

  found :
      Memᴰ entity (entities_of (values ms)) → Memᴰ entity (find_entities_for_table ms entity.table)
  unfolding find_entities_for_table
  found m =
      mem-sort_by _ entity _
        (Memᴰ-filter (λ e. e.table == entity.table) entity _ m (eq_refl entity.table))

  table_brings :
      Memᴰ entity (entities_of (values ms))
      → Memᴰ policy entity.rls_policies
      → (b b' : List Expr) → gather_table ctx ms b entity.table ≡ ok b'
      → IsCovered b'
  unfolding gather_table
  table_brings m mp b b' h =
      fold_result_reaches (gather_entity ctx ms) IsCovered entity_keeps entity (entity_brings mp)
        (find_entities_for_table ms entity.table) b b' h (found m)

  -- A successful pass has the predicate of every policy of every entity of a table that is collected.
  pub gather_covers :
      (tables : List Text) (preds : List Expr)
      → gather ctx ms tables ≡ ok preds
      → Memᴰ entity.table tables
      → Memᴰ entity (entities_of (values ms))
      → Memᴰ policy entity.rls_policies
      → IsCovered preds
  unfolding gather
  gather_covers tables preds h mt me mp =
      fold_result_reaches (gather_table ctx ms) IsCovered table_keeps entity.table
        (table_brings me mp) tables [] preds h mt
