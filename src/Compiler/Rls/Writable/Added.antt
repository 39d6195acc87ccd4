-- ===== src/Compiler/Rls/Writable/Added.antt =====
-- The predicates that injection adds can be written in every dialect.
use mathlib.Core.List.{foldl}
use maysemantic.Prelude.{
  Text, true, Option, none, some, List, [], ◌∷◌, ◌≡◌, all, all-append, ok, >>=-eq-ok, ok-injective,
  subst, sym, refl, arith, traverse, fold_result_keeps, ok_or, find, ◌==◌,
}
use maysemantic.Ast.Node
use maysemantic.Ast.Node.{Expr, SqlNode, Nodes, OptNode, OptNodes}
use mathlib.Core.Logic.{⊎_elim}
use maysemantic.Ast.Combiners.{Floats, and_expr, eq_expr, literal_str}
use maysemantic.Ast.Combiners.Literals.{literal_num_chars, literal_bool_keywords}
use maysemantic.Models.Core.{Dimension, DimensionType, Entity, RlsPolicy}
use maysemantic.Compiler.Lowering.{ModelMap}
use maysemantic.Compiler.Rls.{
  UserContext, add_predicate, add_where, merge_where, literal_for, claim_predicate,
  policy_predicate, predicates_for_entity, gather_entity, gather_table, gather, get_claim,
  find_entities_for_table, deny_all,
}
use maysemantic.Dialects.Quote.{Dialect}
use maysemantic.Dialects.Writer.Rendered.{renders, renders_node, renders_opt}

module _ (d : Dialect) where
  renders-add_predicate :
      (ps : List Expr) (p : Expr)
      → all (renders d) ps ≡ true
      → renders d p ≡ true
      → all (renders d) (add_predicate ps p) ≡ true
  unfolding add_predicate all
  renders-add_predicate ps p h k = ground (arith, all-append (renders d) ps (p ∷ []))

  renders_added :
      (ps qs : List Expr)
      → all (renders d) ps ≡ true
      → all (renders d) qs ≡ true
      → all (renders d) (foldl add_predicate ps qs) ≡ true
  unfolding all
  renders_added ps [] h k = h
  renders_added ps (q ∷ qs) h k =
      renders_added (add_predicate ps q) qs (renders-add_predicate ps q h (ground arith))
        (ground arith)

  renders_folded :
      (p : Expr) (ps : List Expr)
      → renders d p ≡ true
      → all (renders d) ps ≡ true
      → renders d (foldl and_expr p ps) ≡ true
  unfolding all and_expr renders
  renders_folded p [] h k = h
  renders_folded p (q ∷ qs) h k = renders_folded (and_expr p q) qs (ground arith) (ground arith)

  pub renders-add_where :
      (w : OptNode) (ps : List Expr)
      → renders_opt d w ≡ true
      → all (renders d) ps ≡ true
      → renders_opt d (add_where w ps) ≡ true
  unfolding add_where merge_where all renders_node and_expr renders
  renders-add_where w [] h k = h
  renders-add_where Node.absent (p ∷ ps) h k = renders_folded p ps (ground arith) (ground arith)
  renders-add_where (Node.present (Node.where_clause e)) (p ∷ ps) h k =
      ground (arith, renders_folded p ps)
  renders-add_where (Node.present n) (p ∷ ps) h k =
      renders_folded p ps (ground arith) (ground arith)

  module _ ⦃F : Floats⦄ where
    renders-literal_for :
        (t : DimensionType) (v : Text) (e : Expr) → literal_for t v ≡ some e → renders d e ≡ true
    unfolding literal_for renders literal_str
    renders-literal_for DimensionType.number v e h =
        let (_, q, _) = literal_num_chars v e h in rw q refl
    renders-literal_for DimensionType.boolean v e h =
        ⊎_elim (λ q. rw q refl) (λ q. rw q refl) (literal_bool_keywords v e h)
    renders-literal_for t v e h = ground arith

    renders-eq_literal :
        (c : Expr) (o : Option Expr)
        → renders d c ≡ true
        → ((e : Expr) → o ≡ some e → renders d e ≡ true)
        → renders d (elim o [ some l ↦ eq_expr c l | none ↦ deny_all ]) ≡ true
    unfolding deny_all renders eq_expr
    renders-eq_literal c none h k = refl
    renders-eq_literal c (some e) h k = ground (arith, k e refl)

    renders-claim_predicate :
        (dim : Dimension) (o : Option Text) → renders d (claim_predicate dim o) ≡ true
    unfolding claim_predicate deny_all renders eq_expr
    renders-claim_predicate dim none = refl
    renders-claim_predicate dim (some v) =
        renders-eq_literal (Node.column dim.sql) (literal_for dim.dimension_type v) refl
          (renders-literal_for dim.dimension_type v)

    module _ (ctx : UserContext) where
      renders-policy_predicate :
          (entity : Entity) (policy : RlsPolicy) (p : Expr)
          → policy_predicate ctx entity policy ≡ ok p
          → renders d p ≡ true
      unfolding policy_predicate
      renders-policy_predicate entity policy p h =
          let (dim, _, e) =
            >>=-eq-ok (ok_or (find (λ x. x.name == policy.dimension) entity.dimensions) _)
              (λ dim. ok (claim_predicate dim (get_claim ctx policy.claim_key))) h in
          subst (λ z. renders d z ≡ true) (ok-injective e)
            (renders-claim_predicate dim (get_claim ctx policy.claim_key))

      renders_traversed :
          (entity : Entity) (policies : List RlsPolicy) (ps : List Expr)
          → traverse (policy_predicate ctx entity) policies ≡ ok ps
          → all (renders d) ps ≡ true
      unfolding traverse all
      renders_traversed entity [] ps h = rw (sym (ok-injective h)) refl
      renders_traversed entity (x ∷ xs) ps h =
          let (p, hp, h₁) = >>=-eq-ok (policy_predicate ctx entity x) _ h in
          let (qs, hq, h₂) = >>=-eq-ok (traverse (policy_predicate ctx entity) xs) _ h₁ in
          subst (λ z. all (renders d) z ≡ true) (ok-injective h₂)
            (ground
              (arith, renders-policy_predicate entity x p hp, renders_traversed entity xs qs hq))

      module _ (ms : ModelMap) where
        renders-gather_entity :
            (ps : List Expr) (e : Entity) (qs : List Expr)
            → gather_entity ctx ms ps e ≡ ok qs
            → all (renders d) ps ≡ true
            → all (renders d) qs ≡ true
        unfolding gather_entity predicates_for_entity
        renders-gather_entity ps e qs h k =
            let (new, hn, done) =
              >>=-eq-ok (traverse (policy_predicate ctx e) e.rls_policies)
                (λ new. ok (foldl add_predicate ps new)) h in
            subst (λ z. all (renders d) z ≡ true) (ok-injective done)
              (renders_added ps new k (renders_traversed e e.rls_policies new hn))

        pub renders-gather :
            (tables : List Text) (ps : List Expr)
            → gather ctx ms tables ≡ ok ps
            → all (renders d) ps ≡ true
        unfolding gather gather_table all
        renders-gather tables ps h =
            fold_result_keeps (gather_table ctx ms) (λ z. all (renders d) z ≡ true)
              (λ b t b' e k.
                fold_result_keeps (gather_entity ctx ms) (λ z. all (renders d) z ≡ true)
                  renders-gather_entity (find_entities_for_table ms t) b b' e k)
              tables [] ps h refl
