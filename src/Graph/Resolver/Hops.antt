-- ===== src/Graph/Resolver/Hops.antt =====
-- The hops of a join path.
use maysemantic.Prelude.{
  some, ℕ, List, [], ◌∷◌, ◌≡◌, ok, ok-injective, >>=-eq-ok, ◌>>=◌, ok_or, ap, Option, some, none,
  Result, ◌∙◌, Text, map, traverse, subst, sym,
}
use maysemantic.Graph.Engine.{DiGraph, GraphEdge, GraphNode, SemanticGraph}
use maysemantic.Graph.Resolver.{
  JoinResolutionError, ResolvedJoin, windows, node_path, window_edge, window_join, broken_at,
  find_join_path, find_join_path_resolved,
}

-- Each hop continues from where the one before it ended.
abbrev pub IsChainedFrom : GraphNode → List ResolvedJoin → Type 0
IsChainedFrom n [] = Unit
IsChainedFrom n (j ∷ js) = (n ≡ j.left_table) × IsChainedFrom j.right_table js

abbrev pub IsChained : List ResolvedJoin → Type 0
IsChained [] = Unit
IsChained (j ∷ js) = IsChainedFrom j.right_table js

ok_or-eq-ok {ℓ κ} :
    {E : Type κ} {A : Type ℓ} (o : Option A) (e : E) {a : A} → ok_or o e ≡ ok a → o ≡ some a
ok_or-eq-ok none e h = cc
ok_or-eq-ok (some x) e h = ap some (ok-injective h)

some-injective {ℓ} : {A : Type ℓ} {a b : A} → some a ≡ some b → a ≡ b
some-injective h = cc

module _ ⦃D : DiGraph⦄ (graph : D.Graph) where
  -- What the hop over one window is made of.
  window_join_parts :
      (a b : ℕ) (j : ResolvedJoin)
      → window_join graph (a, b) ≡ ok j
      → (window_edge graph (a, b) ≡ ok j.edge)
        × (D.node_weight graph a ≡ some j.left_table)
        × (D.node_weight graph b ≡ some j.right_table)
  unfolding window_join
  window_join_parts a b j h =
      let (edge, he, h₁) = >>=-eq-ok (window_edge graph (a, b)) _ h in
      let (l, hl, h₂) =
        >>=-eq-ok (ok_or (D.node_weight graph a) (broken_at a b)) (hop_right edge) h₁ in
      let (r, hr, h₃) =
        >>=-eq-ok (ok_or (D.node_weight graph b) (broken_at a b)) (λ r. ok (hop edge l r)) h₂ in
      (
        he ∙ ap (λ (j : ResolvedJoin). ok j.edge) (ok-injective h₃),
        ok_or-eq-ok _ _ hl ∙ ap (λ (j : ResolvedJoin). some j.left_table) (ok-injective h₃),
        ok_or-eq-ok _ _ hr ∙ ap (λ (j : ResolvedJoin). some j.right_table) (ok-injective h₃),
      )
    where
      hop : GraphEdge → GraphNode → GraphNode → ResolvedJoin
      hop edge l r = record { left_table = l; right_table = r; edge = edge }

      hop_right : GraphEdge → GraphNode → Result JoinResolutionError ResolvedJoin
      hop_right edge l = ok_or (D.node_weight graph b) (broken_at a b) >>= λ r. ok (hop edge l r)

  IsChainedFrom-windows :
      (b : ℕ) (ns : List ℕ) (n : GraphNode) (js : List ResolvedJoin)
      → traverse (window_join graph) (windows (b ∷ ns)) ≡ ok js
      → D.node_weight graph b ≡ some n
      → IsChainedFrom n js
  unfolding traverse windows
  IsChainedFrom-windows b [] n js h w = subst (IsChainedFrom n) (ok-injective h) tt
  IsChainedFrom-windows b (c ∷ ns) n js h w =
      let (j, hj, h₁) = >>=-eq-ok (window_join graph (b, c)) _ h in
      let (rest, hr, h₂) = >>=-eq-ok (traverse (window_join graph) (windows (c ∷ ns))) _ h₁ in
      let (_, left, right) = window_join_parts b c j hj in
      subst (IsChainedFrom n) (ok-injective h₂)
        (some-injective (sym w ∙ left), IsChainedFrom-windows c ns j.right_table rest hr right)

  IsChained-windows :
      (ns : List ℕ) (js : List ResolvedJoin)
      → traverse (window_join graph) (windows ns) ≡ ok js
      → IsChained js
  unfolding traverse windows
  IsChained-windows [] js h = subst IsChained (ok-injective h) tt
  IsChained-windows (a ∷ []) js h = subst IsChained (ok-injective h) tt
  IsChained-windows (a ∷ b ∷ ns) js h =
      let (j, hj, h₁) = >>=-eq-ok (window_join graph (a, b)) _ h in
      let (rest, hr, h₂) = >>=-eq-ok (traverse (window_join graph) (windows (b ∷ ns))) _ h₁ in
      let (_, _, right) = window_join_parts a b j hj in
      subst IsChained (ok-injective h₂) (IsChainedFrom-windows b ns j.right_table rest hr right)

  edges_of_windows :
      (ws : List (ℕ × ℕ)) (js : List ResolvedJoin)
      → traverse (window_join graph) ws ≡ ok js
      → traverse (window_edge graph) ws ≡ ok (map (λ j. j.edge) js)
  unfolding traverse
  edges_of_windows [] js h = ap (λ js. ok (map (λ (j : ResolvedJoin). j.edge) js)) (ok-injective h)
  edges_of_windows ((a, b) ∷ ws) js h =
      let (j, hj, h₁) = >>=-eq-ok (window_join graph (a, b)) _ h in
      let (rest, hr, h₂) = >>=-eq-ok (traverse (window_join graph) ws) _ h₁ in
      let (edge, _, _) = window_join_parts a b j hj in
      rw (edge, edges_of_windows ws rest hr)
        (ap (λ js. ok (map (λ (j : ResolvedJoin). j.edge) js)) (ok-injective h₂))

module _ ⦃D : DiGraph⦄ (g : SemanticGraph) (source target : Text) where
  -- Each hop of a join path starts at the node where the one before it ends, whatever nodes the
  -- search of the graph library returns.
  find_join_path_resolved-IsChained :
      (js : List ResolvedJoin) → find_join_path_resolved g source target ≡ ok js → IsChained js
  unfolding find_join_path_resolved
  find_join_path_resolved-IsChained js h =
      let (path, _, h₁) =
        >>=-eq-ok (node_path g source target) (λ path. traverse (window_join g.0) (windows path))
          h in
      IsChained-windows g.0 path js h₁

  -- When the search with nodes succeeds, the search without them gives the edges of its hops.
  find_join_path-find_join_path_resolved :
      (js : List ResolvedJoin)
      → find_join_path_resolved g source target ≡ ok js
      → find_join_path g source target ≡ ok (map (λ j. j.edge) js)
  unfolding find_join_path find_join_path_resolved
  find_join_path-find_join_path_resolved js h =
      let (path, found, h₁) =
        >>=-eq-ok (node_path g source target) (λ path. traverse (window_join g.0) (windows path))
          h in
      rw found (edges_of_windows g.0 (windows path) js h₁)
