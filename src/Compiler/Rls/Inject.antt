-- ===== src/Compiler/Rls/Inject.antt =====
-- The injected query: what it keeps, what it adds, and that nested queries are reached.
use mathlib.Core.Logic.{⊎_elim}
use mathlib.Core.List.{◌++◌, ◌∷◌, Memᴰ}
use mathlib.Core.List.Memᴰ
use mathlib.Core.Path.{ap₂}
use maysemantic.Prelude.{
  [], arith, values, subst, ◌∙◌, ok-injective, sym, true, all, >>=-eq-ok, ap, Bool, List, Option, ℕ,
  ok, ◌&&◌, ◌≡◌,
}
use maysemantic.Ast.Node
use maysemantic.Ast.Node.{Expr, OrderByExpr, SqlNode, Nodes, OptNode, OptNodes}
use maysemantic.Ast.Combiners.{Floats}
use maysemantic.Models.Core.{Entity, RlsPolicy}
use maysemantic.Compiler.Lowering.{ModelMap}
use maysemantic.Compiler.Rls.{
  UserContext, add_where, policy_predicate, gather, inject, inject_ctes, inject_into_relations,
  inject_joins, inject_join, collect_table_names, table_name, join_table, join_tables, entities_of,
}
use maysemantic.Compiler.Rls.Named.{IsNamed, collect_table_names-IsNamed}
use maysemantic.Compiler.Rls.Enforced.{holds, where_holds, where_holds-add_where, gather_covers}

all_at : (p : Expr → Bool) (x : Expr) (xs : List Expr) → all p xs ≡ true → Memᴰ x xs → p x ≡ true
unfolding all
all_at p x [] h m = absurd (Memᴰ.not-nil m)
all_at p x (y ∷ ys) h m =
    ⊎_elim (λ e. subst (λ z. p z ≡ true) (sym e) (ground arith))
      (λ t. all_at p x ys (ground arith) t) (Memᴰ.cases_cons m)

module _ ⦃F : Floats⦄ (ctx : UserContext) (ms : ModelMap) where
  table_name-inject : (n n' : SqlNode) → inject ctx ms n ≡ ok n' → table_name n' ≡ table_name n
  unfolding inject
  table_name-inject (Node.query ctes sel src w g h o l off) n' e =
      let (ctes', _, e₁) = >>=-eq-ok (inject_ctes ctx ms ctes) _ e in
      let (src', _, e₂) = >>=-eq-ok (inject_into_relations ctx ms src) _ e₁ in
      let (preds, _, e₃) = >>=-eq-ok (gather ctx ms (collect_table_names src')) _ e₂ in
      ap table_name (sym (ok-injective e₃))
  table_name-inject (Node.table t) n' e = ap table_name (sym (ok-injective e))
  table_name-inject n n' e = ap table_name (sym (ok-injective e))

  join_table-inject : (n n' : SqlNode) → inject_join ctx ms n ≡ ok n' → join_table n' ≡ join_table n
  unfolding inject
  join_table-inject (Node.join t relation on) n' e =
      let (r', e₁, e₂) = >>=-eq-ok (inject ctx ms relation) _ e in
      ap join_table (sym (ok-injective e₂)) ∙ table_name-inject relation r' e₁
  join_table-inject n n' e = ap join_table (sym (ok-injective e))

  join_tables-inject :
      (ns ns' : Nodes) → inject_joins ctx ms ns ≡ ok ns' → join_tables ns' ≡ join_tables ns
  unfolding inject
  join_tables-inject Node.end ns' e = ap join_tables (sym (ok-injective e))
  join_tables-inject (Node.node n ns) ns' e =
      let (n', e₁, e₂) = >>=-eq-ok (inject_join ctx ms n) _ e in
      let (rest, e₃, e₄) = >>=-eq-ok (inject_joins ctx ms ns) _ e₂ in
      ap join_tables (sym (ok-injective e₄))
      ∙ ap₂ ◌++◌ (join_table-inject n n' e₁) (join_tables-inject ns rest e₃)

  tables-inject :
      (n n' : SqlNode)
      → inject_into_relations ctx ms n ≡ ok n'
      → collect_table_names n' ≡ collect_table_names n
  unfolding inject
  tables-inject (Node.from source joins) n' e =
      let (s', e₁, e₂) = >>=-eq-ok (inject ctx ms source) _ e in
      let (js', e₃, e₄) = >>=-eq-ok (inject_joins ctx ms joins) _ e₂ in
      ap collect_table_names (sym (ok-injective e₄))
      ∙ ap₂ ◌++◌ (table_name-inject source s' e₁) (join_tables-inject joins js' e₃)
  tables-inject n n' e = ap collect_table_names (sym (ok-injective e))

  -- A successful pass over a query keeps all but its CTEs, FROM and WHERE, whose nested queries
  -- are passed over too, and adds the predicates of its base tables to the WHERE clause.
  pub inject_query :
      (ctes : OptNodes) (sel src : SqlNode) (w g h : OptNode) (o : List OrderByExpr)
      (l off : Option ℕ) (q : SqlNode)
      → inject ctx ms (Node.query ctes sel src w g h o l off) ≡ ok q
      → (ctes' : OptNodes) × (src' : SqlNode) × (preds : List Expr) × (inject_ctes ctx ms ctes
          ≡ ok ctes')
        × (inject_into_relations ctx ms src ≡ ok src')
        × (gather ctx ms (collect_table_names src) ≡ ok preds)
        × (q ≡ Node.query ctes' sel src' (add_where w preds) g h o l off)
  unfolding inject
  inject_query ctes sel src w g h o l off q e =
      let (ctes', a, e₁) = >>=-eq-ok (inject_ctes ctx ms ctes) _ e in
      let (src', b, e₂) = >>=-eq-ok (inject_into_relations ctx ms src) _ e₁ in
      let (preds, c, e₃) = >>=-eq-ok (gather ctx ms (collect_table_names src')) _ e₂ in
      (
        ctes',
        src',
        preds,
        a,
        b,
        subst (λ ts. gather ctx ms ts ≡ ok preds) (tables-inject src src' b) c,
        sym (ok-injective e₃),
      )

-- The WHERE clause of a query.
abbrev pub where_of : SqlNode → OptNode
where_of (Node.query ctes sel src w g h o l off) = w
where_of _ = Node.absent

-- When injection into a query succeeds, then for every policy of every entity whose table the FROM
-- clause names without an alias, as its source or in a join, the policy's predicate is built, and a
-- row that the new WHERE clause lets through is let through by that predicate and by the old WHERE
-- clause.
pub inject_enforces :
    ⦃F : Floats⦄ (ctx : UserContext) (ms : ModelMap) (entity : Entity) (policy : RlsPolicy)
    (ctes : OptNodes) (sel src : SqlNode) (w g h : OptNode) (o : List OrderByExpr)
    (l off : Option ℕ) (q : SqlNode)
    → inject ctx ms (Node.query ctes sel src w g h o l off) ≡ ok q
    → IsNamed entity.table src
    → Memᴰ entity (entities_of (values ms))
    → Memᴰ policy entity.rls_policies
    → (p : Expr) × (policy_predicate ctx entity policy ≡ ok p)
      × ((truth : Expr → Bool)
          → where_holds truth (where_of q) ≡ true
          → (holds truth p ≡ true) × (where_holds truth w ≡ true))
inject_enforces ctx ms entity policy ctes sel src w g h o l off q e mt me mp =
    let (ctes', src', preds, _, _, c, shape) = inject_query ctx ms ctes sel src w g h o l off q e in
    let (p, built, m) =
      gather_covers ctx ms entity policy (collect_table_names src) preds c
        (collect_table_names-IsNamed entity.table mt) me mp in
    (
      p,
      built,
      λ truth passed.
          let both = where_holds-add_where truth w preds in
          let split : (where_holds truth w && all (holds truth) preds) ≡ true =
            sym both ∙ (ap (λ n. where_holds truth (where_of n)) (sym shape) ∙ passed) in
          (all_at (holds truth) p preds (ground arith) m, ground arith),
    )
