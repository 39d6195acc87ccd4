-- ===== src/Compiler/Rls/Writable.antt =====
-- What injection adds can be written in every dialect.
pub mod Added
use mathlib.Core.List.{foldl}
use maysemantic.Prelude.{
  Text, Bool, true, Option, none, some, List, [], ◌∷◌, ◌≡◌, ◌&&◌, all, all-append, ok, >>=-eq-ok,
  ok-injective, subst, sym, refl, arith, traverse, fold_result_keeps, ok_or, find, ◌==◌, is_ok,
}
use maysemantic.Ast.Node
use maysemantic.Ast.Node.{Expr, SqlNode, Nodes, OptNode, OptNodes}
use mathlib.Core.Logic.{⊎_elim}
use maysemantic.Ast.Combiners.{Floats, and_expr, eq_expr, literal_str}
use maysemantic.Ast.Combiners.Literals.{literal_num_chars, literal_bool_keywords}
use maysemantic.Dialects.Writer.{generate_sql}
use maysemantic.Models.Core.{Dimension, DimensionType, Entity, RlsPolicy}
use maysemantic.Compiler.Lowering.{ModelMap}
use maysemantic.Compiler.Rls.{
  UserContext, add_predicate, add_where, merge_where, literal_for, claim_predicate,
  policy_predicate, predicates_for_entity, gather_entity, gather_table, gather, get_claim,
  find_entities_for_table, inject, inject_into_relations, inject_joins, inject_join, inject_ctes,
  inject_cte_list, inject_cte, collect_table_names, deny_all,
}
use maysemantic.Dialects.Quote.{Dialect}
use maysemantic.Compiler.Rls.Writable.Added.{renders-add_where, renders-gather}
use maysemantic.Dialects.Writer.Renders.{is_ok-generate_sql}
use maysemantic.Dialects.Writer.Rendered.{
  renders, renders_node, renders_nodes, renders_opt, renders_ctes,
}

both :
    (a a' b b' : Bool)
    → (a && b) ≡ true
    → (a ≡ true → a' ≡ true)
    → (b ≡ true → b' ≡ true)
    → (a' && b') ≡ true
both a a' b b' h f g = ground arith

-- Three conjuncts replaced by what they imply.
refill :
    (c c' s r r' w w' rest : Bool)
    → (c && (s && (r && (w && rest)))) ≡ true
    → (c ≡ true → c' ≡ true)
    → (r ≡ true → r' ≡ true)
    → (w ≡ true → w' ≡ true)
    → (c' && (s && (r' && (w' && rest)))) ≡ true
refill c c' s r r' w w' rest h f g k = ground arith

module _ ⦃F : Floats⦄ (d : Dialect) (ctx : UserContext) (ms : ModelMap) where
  mutual
    unfolding inject renders_node

    renders-inject :
        (n n' : SqlNode)
        → inject ctx ms n ≡ ok n'
        → renders_node d n ≡ true
        → renders_node d n' ≡ true
    renders-inject (Node.query ctes sel src w g h o l off) n' e k =
        let (ctes', a, e₁) = >>=-eq-ok (inject_ctes ctx ms ctes) _ e in
        let (src', b, e₂) = >>=-eq-ok (inject_into_relations ctx ms src) _ e₁ in
        let (preds, c, e₃) = >>=-eq-ok (gather ctx ms (collect_table_names src')) _ e₂ in
        subst (λ z. renders_node d z ≡ true) (ok-injective e₃)
          (refill (renders_ctes d ctes) (renders_ctes d ctes') (renders_node d sel)
            (renders_node d src) (renders_node d src') (renders_opt d w)
            (renders_opt d (add_where w preds)) _ k (renders-inject_ctes ctes ctes' a)
            (renders-into_relations src src' b)
            (λ z.
              renders-add_where d w preds z
                (renders-gather d ctx ms (collect_table_names src') preds c)))
    renders-inject n n' e k = subst (λ z. renders_node d z ≡ true) (ok-injective e) k

    renders-into_relations :
        (n n' : SqlNode)
        → inject_into_relations ctx ms n ≡ ok n'
        → renders_node d n ≡ true
        → renders_node d n' ≡ true
    renders-into_relations (Node.from source joins) n' e k =
        let (s', e₁, e₂) = >>=-eq-ok (inject ctx ms source) _ e in
        let (js', e₃, e₄) = >>=-eq-ok (inject_joins ctx ms joins) _ e₂ in
        subst (λ z. renders_node d z ≡ true) (ok-injective e₄)
          (both (renders_node d source) (renders_node d s') (renders_nodes d joins)
            (renders_nodes d js') k (renders-inject source s' e₁)
            (renders-inject_joins joins js' e₃))
    renders-into_relations n n' e k = subst (λ z. renders_node d z ≡ true) (ok-injective e) k

    renders-inject_joins :
        (ns ns' : Nodes)
        → inject_joins ctx ms ns ≡ ok ns'
        → renders_nodes d ns ≡ true
        → renders_nodes d ns' ≡ true
    renders-inject_joins Node.end ns' e k = subst (λ z. renders_nodes d z ≡ true) (ok-injective e) k
    renders-inject_joins (Node.node n ns) ns' e k =
        let (n', e₁, e₂) = >>=-eq-ok (inject_join ctx ms n) _ e in
        let (rest, e₃, e₄) = >>=-eq-ok (inject_joins ctx ms ns) _ e₂ in
        subst (λ z. renders_nodes d z ≡ true) (ok-injective e₄)
          (both (renders_node d n) (renders_node d n') (renders_nodes d ns) (renders_nodes d rest) k
            (renders-inject_join n n' e₁) (renders-inject_joins ns rest e₃))

    renders-inject_join :
        (n n' : SqlNode)
        → inject_join ctx ms n ≡ ok n'
        → renders_node d n ≡ true
        → renders_node d n' ≡ true
    renders-inject_join (Node.join t relation on) n' e k =
        let (r', e₁, e₂) = >>=-eq-ok (inject ctx ms relation) _ e in
        subst (λ z. renders_node d z ≡ true) (ok-injective e₂)
          (both (renders_node d relation) (renders_node d r') (renders d on) (renders d on) k
            (renders-inject relation r' e₁) (λ z. z))
    renders-inject_join n n' e k = subst (λ z. renders_node d z ≡ true) (ok-injective e) k

    renders-inject_ctes :
        (o o' : OptNodes)
        → inject_ctes ctx ms o ≡ ok o'
        → renders_ctes d o ≡ true
        → renders_ctes d o' ≡ true
    renders-inject_ctes Node.absent_list o' e k =
        subst (λ z. renders_ctes d z ≡ true) (ok-injective e) k
    renders-inject_ctes (Node.present_list ns) o' e k =
        let (ns', e₁, e₂) = >>=-eq-ok (inject_cte_list ctx ms ns) _ e in
        subst (λ z. renders_ctes d z ≡ true) (ok-injective e₂) (renders-inject_cte_list ns ns' e₁ k)

    renders-inject_cte_list :
        (ns ns' : Nodes)
        → inject_cte_list ctx ms ns ≡ ok ns'
        → renders_nodes d ns ≡ true
        → renders_nodes d ns' ≡ true
    renders-inject_cte_list Node.end ns' e k =
        subst (λ z. renders_nodes d z ≡ true) (ok-injective e) k
    renders-inject_cte_list (Node.node n ns) ns' e k =
        let (n', e₁, e₂) = >>=-eq-ok (inject_cte ctx ms n) _ e in
        let (rest, e₃, e₄) = >>=-eq-ok (inject_cte_list ctx ms ns) _ e₂ in
        subst (λ z. renders_nodes d z ≡ true) (ok-injective e₄)
          (both (renders_node d n) (renders_node d n') (renders_nodes d ns) (renders_nodes d rest) k
            (renders-inject_cte n n' e₁) (renders-inject_cte_list ns rest e₃))

    renders-inject_cte :
        (n n' : SqlNode)
        → inject_cte ctx ms n ≡ ok n'
        → renders_node d n ≡ true
        → renders_node d n' ≡ true
    renders-inject_cte (Node.cte alias body) n' e k =
        let (b', e₁, e₂) = >>=-eq-ok (inject ctx ms body) _ e in
        subst (λ z. renders_node d z ≡ true) (ok-injective e₂) (renders-inject body b' e₁ k)
    renders-inject_cte n n' e k = subst (λ z. renders_node d z ≡ true) (ok-injective e) k

-- Injection adds nothing that a dialect cannot write: when the query that goes in can be written,
-- so can the query that comes out.
pub inject_writable :
    ⦃F : Floats⦄ (d : Dialect) (ctx : UserContext) (ms : ModelMap) (n n' : SqlNode)
    → inject ctx ms n ≡ ok n'
    → is_ok (generate_sql d n) ≡ true
    → is_ok (generate_sql d n') ≡ true
inject_writable d ctx ms n n' h k =
    rw (is_ok-generate_sql d n') (renders-inject d ctx ms n n' h (rw (is_ok-generate_sql d n) at k))
