-- ===== src/Compiler/Semantic/Compile/Secured.antt =====
-- What `compile` returns went through every pass.
use maysemantic.Prelude.{
  Text, true, none, some, ◌≡◌, ok, >>=-eq-ok, ◌>>=◌, values, traverse, subst, sym, ok-injective,
  Bool, Result, map_err, is_ok, refl,
}
use maysemantic.Ast.Node.{SqlNode, Expr}
use maysemantic.Ast.Combiners.{Floats}
use maysemantic.Graph.Engine.{DiGraph}
use maysemantic.Dialects.Quote.{Dialect}
use maysemantic.Dialects.Writer.{generate_sql}
use maysemantic.Compiler.Lowering.{ModelMap, new, lower_node, lower_ctes, lower_opt, lower_order}
use mathlib.Core.List.{Memᴰ}
use maysemantic.Models.Core.{Entity, RlsPolicy}
use maysemantic.Compiler.Rls.{UserContext, inject, policy_predicate, entities_of, add_where}
use maysemantic.Compiler.Rls.Named.{IsQueried, queried}
use maysemantic.Compiler.Rls.Kept.{lower_node-IsNamed, inject_into_relations-IsNamed}
use maysemantic.Compiler.Rls.Enforced.{holds, where_holds}
use maysemantic.Compiler.Rls.Inject.{inject_query, inject_enforces, where_of}
use maysemantic.Compiler.Rls.Writable.{inject_writable}
use maysemantic.Compiler.Request.{SemanticRequest}
use maysemantic.Compiler.Semantic.{err, lowering, rls, code_generation}
use maysemantic.Compiler.Semantic.Compile.{semantic_query, secure, finish, compile}

map_err-eq-ok {ℓ ι κ} :
    {E : Type κ} {F : Type ι} {A : Type ℓ} (f : E → F) (m : Result E A) {a : A}
    → map_err f m ≡ ok a
    → m ≡ ok a
map_err-eq-ok f (ok x) h = cc
map_err-eq-ok f (err e) h = cc

is_ok-map_err {ℓ ι κ} :
    {E : Type κ} {F : Type ι} {A : Type ℓ} (f : E → F) (m : Result E A)
    → is_ok (map_err f m) ≡ is_ok m
is_ok-map_err f (ok x) = refl
is_ok-map_err f (err e) = refl

lower_query :
    (ms : ModelMap) (t : Text) {q : SqlNode} (lowered : SqlNode)
    → IsQueried t q
    → lower_node (new ms) q ≡ ok lowered
    → IsQueried t lowered
unfolding lower_node
lower_query ms t lowered (queried ctes sel src w g h o l off named) e =
    let ix = new ms in
    let (ctes', _, e₁) = >>=-eq-ok (lower_ctes ix ctes) _ e in
    let (sel', _, e₂) = >>=-eq-ok (lower_node ix sel) _ e₁ in
    let (src', hs, e₃) = >>=-eq-ok (lower_node ix src) _ e₂ in
    let (w', _, e₄) = >>=-eq-ok (lower_opt ix w) _ e₃ in
    let (g', _, e₅) = >>=-eq-ok (lower_opt ix g) _ e₄ in
    let (h', _, e₆) = >>=-eq-ok (lower_opt ix h) _ e₅ in
    let (o', _, e₇) = >>=-eq-ok (traverse (lower_order ix) o) _ e₆ in
    subst (IsQueried t) (ok-injective e₇)
      (queried ctes' sel' src' w' g' h' o' l off (lower_node-IsNamed ix t src' named hs))

inject_query_filters :
    ⦃F : Floats⦄ (ctx : UserContext) (ms : ModelMap) (entity : Entity) (policy : RlsPolicy)
    {lowered : SqlNode} (ast : SqlNode)
    → IsQueried entity.table lowered
    → inject ctx ms lowered ≡ ok ast
    → Memᴰ entity (entities_of (values ms))
    → Memᴰ policy entity.rls_policies
    → IsQueried entity.table ast
      × (p : Expr) × (policy_predicate ctx entity policy ≡ ok p)
      × ((truth : Expr → Bool) → where_holds truth (where_of ast) ≡ true → holds truth p ≡ true)
inject_query_filters ctx ms entity policy ast (queried ctes sel src w g h o l off named) e me mp =
    let (ctes', src', preds, _, hs, _, shape) =
      inject_query ctx ms ctes sel src w g h o l off ast e in
    let (p, built, passes) =
      inject_enforces ctx ms entity policy ctes sel src w g h o l off ast e named me mp in
    (
      subst (IsQueried entity.table) (sym shape) (
          queried ctes' sel src' (add_where w preds) g h o l off
            (inject_into_relations-IsNamed ctx ms entity.table src' named hs)),
      p,
      built,
      λ truth passed. (passes truth passed).0,
    )

module _ ⦃D : DiGraph⦄ ⦃F : Floats⦄ (models : ModelMap) (dialect : Dialect) where
  -- Where a request of a user is compiled to a text, and the query that the request is turned into
  -- names the table of an entity in its FROM clause without an alias, the text is the dialect's
  -- writing of a query that still names the table there, and whose WHERE clause lets no row through
  -- that the predicate of any policy of that entity, built from the user's claims, does not let
  -- through.
  pub compile_secured :
      (request : SemanticRequest) (ctx : UserContext) (sql : Text) (q : SqlNode) (entity : Entity)
      (policy : RlsPolicy)
      → compile models dialect request (some ctx) ≡ ok sql
      → semantic_query models request ≡ ok q
      → IsQueried entity.table q
      → Memᴰ entity (entities_of (values models))
      → Memᴰ policy entity.rls_policies
      → (ast : SqlNode) × (generate_sql dialect ast ≡ ok sql)
        × IsQueried entity.table ast
        × (p : Expr) × (policy_predicate ctx entity policy ≡ ok p)
        × ((truth : Expr → Bool) → where_holds truth (where_of ast) ≡ true → holds truth p ≡ true)
  unfolding compile finish secure
  compile_secured request ctx sql q entity policy h hq named me mp =
      let (lowered, hl, h₂) =
        >>=-eq-ok (map_err lowering (lower_node (new models) q))
          (λ lowered. do
            ast ← secure models (some ctx) lowered
            map_err code_generation (generate_sql dialect ast))
          (rw hq at h) in
      let (ast, ha, h₃) =
        >>=-eq-ok (map_err rls (inject ctx models lowered))
          (λ ast. map_err code_generation (generate_sql dialect ast)) h₂ in
      let reads = lower_query models entity.table lowered named (map_err-eq-ok lowering _ hl) in
      let (kept, p, built, passes) =
        inject_query_filters ctx models entity policy ast reads (map_err-eq-ok rls _ ha) me mp in
      (ast, map_err-eq-ok code_generation _ h₃, kept, p, built, passes)

  -- When the lowered query can be written without a user, and row-level security succeeds for a
  -- user, then the query is compiled for that user too.
  finish_for_user :
      (q lowered ast : SqlNode) (ctx : UserContext)
      → lower_node (new models) q ≡ ok lowered
      → inject ctx models lowered ≡ ok ast
      → is_ok (finish models dialect none q) ≡ true
      → is_ok (finish models dialect (some ctx) q) ≡ true
  unfolding finish secure
  finish_for_user q lowered ast ctx hl ha h =
      rw (hl, ha, is_ok-map_err code_generation (generate_sql dialect ast))
        (inject_writable dialect ctx models lowered ast ha
          (rw (hl, is_ok-map_err code_generation (generate_sql dialect lowered)) at h))
