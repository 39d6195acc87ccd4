-- ===== src/Compiler/Rls/Aliased.antt =====
-- Tables under an alias.
use maysemantic.Prelude.{
  refl, Text, ℕ, Option, List, [], ◌≡◌, ok, ok-injective, ap, subst, sym, ◌∙◌, fold_result,
}
use maysemantic.Ast.Node
use maysemantic.Ast.Node.{JoinType, Nodes, Expr, OrderByExpr, SqlNode, OptNode, OptNodes}
use maysemantic.Ast.Combiners.{Floats}
use maysemantic.Compiler.Lowering.{ModelMap}
use maysemantic.Compiler.Rls.{
  join_tables, UserContext, add_where, collect_table_names, gather, inject,
}
use maysemantic.Compiler.Rls.Inject.{inject_query, where_of}

gather-nil :
    ⦃F : Floats⦄ (ctx : UserContext) (ms : ModelMap) (preds : List Expr)
    → gather ctx ms [] ≡ ok preds
    → [] ≡ preds
unfolding gather fold_result
gather-nil ctx ms preds h = ok-injective h

-- every join is of a table under an alias
pub data AreAliased : Nodes → Type 0 where
  no_joins : AreAliased Node.end
  join_aliased :
      {joins : Nodes} (join_type : JoinType) (table alias : Text) (on : Expr)
      → AreAliased joins
      → AreAliased (Node.node (Node.join join_type (Node.aliased_table table alias) on) joins)

-- a FROM clause whose tables all stand under an alias
pub data IsAliased : SqlNode → Type 0 where
  all_aliased :
      {joins : Nodes} (table alias : Text)
      → AreAliased joins
      → IsAliased (Node.from (Node.aliased_table table alias) joins)

join_tables-AreAliased : {joins : Nodes} → AreAliased joins → join_tables joins ≡ []
join_tables-AreAliased no_joins = refl
join_tables-AreAliased (join_aliased join_type table alias on rest) = join_tables-AreAliased rest

collect_table_names-IsAliased : {src : SqlNode} → IsAliased src → collect_table_names src ≡ []
collect_table_names-IsAliased (all_aliased table alias rest) = join_tables-AreAliased rest

-- A query whose tables all stand under an alias, as the second use of a table does, keeps its WHERE
-- clause: the tables bring in no predicate, whatever the policies of their entities are.
pub inject_aliased :
    ⦃F : Floats⦄ (ctx : UserContext) (ms : ModelMap) (ctes : OptNodes) (sel src : SqlNode)
    (w g h : OptNode) (o : List OrderByExpr) (l off : Option ℕ) (q : SqlNode)
    → IsAliased src
    → inject ctx ms (Node.query ctes sel src w g h o l off) ≡ ok q
    → where_of q ≡ w
unfolding add_where
inject_aliased ctx ms ctes sel src w g h o l off q aliased e =
    let none_named = collect_table_names-IsAliased aliased in
    let (ctes', src', preds, _, _, c, shape) = inject_query ctx ms ctes sel src w g h o l off q e in
    ap where_of shape
    ∙ ap (add_where w)
        (sym (gather-nil ctx ms preds (subst (λ ts. gather ctx ms ts ≡ ok preds) none_named c)))
