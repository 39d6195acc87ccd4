-- ===== src/Compiler/Rls/Nested.antt =====
-- The common table expressions of a query are secured too.
use mathlib.Core.Logic.{⊎_elim}
use mathlib.Core.List.{Memᴰ}
use mathlib.Core.List.Memᴰ
use maysemantic.Prelude.{
  ℕ, Text, Option, List, [], ◌∷◌, ◌≡◌, ok, ok-injective, >>=-eq-ok, subst, sym,
}
use maysemantic.Ast.Node
use maysemantic.Ast.Node.{OrderByExpr, SqlNode, Nodes, OptNode, OptNodes}
use maysemantic.Ast.Combiners.{Floats}
use maysemantic.Compiler.Lowering.{ModelMap}
use maysemantic.Compiler.Rls.{UserContext, inject, inject_ctes, inject_cte, inject_cte_list}
use maysemantic.Compiler.Rls.Inject.{inject_query}

abbrev pub to_list : Nodes → List SqlNode
to_list Node.end = []
to_list (Node.node n ns) = n ∷ to_list ns

abbrev pub listed : OptNodes → List SqlNode
listed Node.absent_list = []
listed (Node.present_list ns) = to_list ns

-- The common table expressions of a query.
abbrev pub ctes_listed : SqlNode → List SqlNode
ctes_listed (Node.query ctes sel src w g h o l off) = listed ctes
ctes_listed n = []

module _ ⦃F : Floats⦄ (ctx : UserContext) (ms : ModelMap) (alias : Text) (body : SqlNode) where
  -- The injected body stands under the same alias.
  abbrev Secured : List SqlNode → Type 0
  Secured ns = (body' : SqlNode) × (inject ctx ms body ≡ ok body') × Memᴰ (Node.cte alias body') ns

  cte-Secured :
      (n n' : SqlNode) → inject_cte ctx ms n ≡ ok n' → Node.cte alias body ≡ n → Secured (n' ∷ [])
  unfolding inject_cte
  cte-Secured n n' h e =
      let (body', hb, h₁) =
        >>=-eq-ok (inject ctx ms body) (λ b. ok (Node.cte alias b))
          (subst (λ z. inject_cte ctx ms z ≡ ok n') (sym e) h) in
      (body', hb, Memᴰ.head (ok-injective h₁))

  list-Secured :
      (ns ns' : Nodes)
      → inject_cte_list ctx ms ns ≡ ok ns'
      → Memᴰ (Node.cte alias body) (to_list ns)
      → Secured (to_list ns')
  unfolding inject_cte_list
  list-Secured Node.end ns' h m = absurd (Memᴰ.not-nil m)
  list-Secured (Node.node n ns) ns' h m =
      let (n', hn, h₁) = >>=-eq-ok (inject_cte ctx ms n) _ h in
      let (rest, hr, h₂) = >>=-eq-ok (inject_cte_list ctx ms ns) _ h₁ in
      subst (λ z. Secured (to_list z)) (ok-injective h₂)
        (⊎_elim
          (λ e.
            let (body', hb, at) = cte-Secured n n' hn e in
            (body', hb, ⊎_elim Memᴰ.head (λ t. absurd (Memᴰ.not-nil t)) (Memᴰ.cases_cons at)))
          (λ t. let (body', hb, at) = list-Secured ns rest hr t in (body', hb, Memᴰ.tail at))
          (Memᴰ.cases_cons m))

  ctes-Secured :
      (o o' : OptNodes)
      → inject_ctes ctx ms o ≡ ok o'
      → Memᴰ (Node.cte alias body) (listed o)
      → Secured (listed o')
  unfolding inject_ctes
  ctes-Secured Node.absent_list o' h m = absurd (Memᴰ.not-nil m)
  ctes-Secured (Node.present_list ns) o' h m =
      let (ns', hn, h₁) = >>=-eq-ok (inject_cte_list ctx ms ns) _ h in
      subst (λ z. Secured (listed z)) (ok-injective h₁) (list-Secured ns ns' hn m)

-- When injection into a query succeeds, it succeeded for the body of each of the query's common
-- table expressions, and what it made of that body stands under the same alias in the result.
pub inject_secures_ctes :
    ⦃F : Floats⦄ (ctx : UserContext) (ms : ModelMap) (alias : Text) (body : SqlNode)
    (ctes : OptNodes) (sel src : SqlNode) (w g h : OptNode) (o : List OrderByExpr)
    (l off : Option ℕ) (q : SqlNode)
    → inject ctx ms (Node.query ctes sel src w g h o l off) ≡ ok q
    → Memᴰ (Node.cte alias body) (listed ctes)
    → (body' : SqlNode) × (inject ctx ms body ≡ ok body')
      × Memᴰ (Node.cte alias body') (ctes_listed q)
inject_secures_ctes ctx ms alias body ctes sel src w g h o l off q e m =
    let (ctes', src', preds, a, _, _, shape) = inject_query ctx ms ctes sel src w g h o l off q e in
    subst (λ z. Secured ctx ms alias body (ctes_listed z)) (sym shape)
      (ctes-Secured ctx ms alias body ctes ctes' a m)
