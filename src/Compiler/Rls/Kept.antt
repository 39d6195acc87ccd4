-- ===== src/Compiler/Rls/Kept.antt =====
-- Lowering and row-level security keep the tables that a FROM clause names,
-- may_core/src/compiler/lowering.rs and rls.rs.
use maysemantic.Prelude.{Text, ◌≡◌, ok, ok-injective, >>=-eq-ok, subst}
use maysemantic.Ast.Node
use maysemantic.Ast.Node.{SqlNode, Nodes}
use maysemantic.Ast.Combiners.{Floats}
use maysemantic.Compiler.Lowering.{ModelMap, SemanticLowering, lower_expr, lower_node, lower_nodes}
use maysemantic.Compiler.Rls.{UserContext, inject, inject_into_relations, inject_joins, inject_join}
use maysemantic.Compiler.Rls.Named.{IsNamed, IsJoined, as_source, in_join, joined, further}

module _ (ix : SemanticLowering) (t : Text) where
  lower_nodes-IsJoined :
      {ns : Nodes} (ns' : Nodes) → IsJoined t ns → lower_nodes ix ns ≡ ok ns' → IsJoined t ns'
  unfolding lower_node
  lower_nodes-IsJoined ns' (joined {joins = js} join_type on) h =
      let (n', hn, h₁) = >>=-eq-ok (lower_node ix (Node.join join_type (Node.table t) on)) _ h in
      let (on', ho, h₂) = >>=-eq-ok (lower_expr ix on) _ hn in
      let (js', hj, h₃) = >>=-eq-ok (lower_nodes ix js) _ h₁ in
      subst (IsJoined t) (ok-injective h₃)
        (subst (λ n. IsJoined t (Node.node n js')) (ok-injective h₂) (joined join_type on'))
  lower_nodes-IsJoined ns' (further {joins = js} j rest) h =
      let (n', hn, h₁) = >>=-eq-ok (lower_node ix j) _ h in
      let (js', hj, h₂) = >>=-eq-ok (lower_nodes ix js) _ h₁ in
      subst (IsJoined t) (ok-injective h₂) (further n' (lower_nodes-IsJoined js' rest hj))

  pub lower_node-IsNamed :
      {src : SqlNode} (src' : SqlNode)
      → IsNamed t src
      → lower_node ix src ≡ ok src'
      → IsNamed t src'
  unfolding lower_node
  lower_node-IsNamed src' (as_source {joins = js}) h =
      let (js', hj, h₁) = >>=-eq-ok (lower_nodes ix js) _ h in
      subst (IsNamed t) (ok-injective h₁) as_source
  lower_node-IsNamed src' (in_join {joins = js} source rest) h =
      let (s', hs, h₁) = >>=-eq-ok (lower_node ix source) _ h in
      let (js', hj, h₂) = >>=-eq-ok (lower_nodes ix js) _ h₁ in
      subst (IsNamed t) (ok-injective h₂) (in_join s' (lower_nodes-IsJoined js' rest hj))

module _ ⦃F : Floats⦄ (ctx : UserContext) (ms : ModelMap) (t : Text) where
  inject_joins-IsJoined :
      {ns : Nodes} (ns' : Nodes) → IsJoined t ns → inject_joins ctx ms ns ≡ ok ns' → IsJoined t ns'
  unfolding inject
  inject_joins-IsJoined ns' (joined {joins = js} join_type on) h =
      let (js', hj, h₁) = >>=-eq-ok (inject_joins ctx ms js) _ h in
      subst (IsJoined t) (ok-injective h₁) (joined join_type on)
  inject_joins-IsJoined ns' (further {joins = js} j rest) h =
      let (n', hn, h₁) = >>=-eq-ok (inject_join ctx ms j) _ h in
      let (js', hj, h₂) = >>=-eq-ok (inject_joins ctx ms js) _ h₁ in
      subst (IsJoined t) (ok-injective h₂) (further n' (inject_joins-IsJoined js' rest hj))

  pub inject_into_relations-IsNamed :
      {src : SqlNode} (src' : SqlNode)
      → IsNamed t src
      → inject_into_relations ctx ms src ≡ ok src'
      → IsNamed t src'
  unfolding inject
  inject_into_relations-IsNamed src' (as_source {joins = js}) h =
      let (js', hj, h₁) = >>=-eq-ok (inject_joins ctx ms js) _ h in
      subst (IsNamed t) (ok-injective h₁) as_source
  inject_into_relations-IsNamed src' (in_join {joins = js} source rest) h =
      let (s', hs, h₁) = >>=-eq-ok (inject ctx ms source) _ h in
      let (js', hj, h₂) = >>=-eq-ok (inject_joins ctx ms js) _ h₁ in
      subst (IsNamed t) (ok-injective h₂) (in_join s' (inject_joins-IsJoined js' rest hj))
