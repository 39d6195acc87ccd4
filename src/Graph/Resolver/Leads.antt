-- ===== src/Graph/Resolver/Leads.antt =====
-- Where a join path begins and ends, once the search of petgraph walks along edges:
-- may_core/src/graph/resolver.rs.
use maysemantic.Prelude.{
  nat_eq_iff, Bool-cases, ◌⊎◌, err, inl, inr, some, ℕ, List, [], ◌∷◌, ◌≡◌, ok, Option-cases, Text,
  traverse, nat_eq, refl, arith, lookup, text_key,
}
use maysemantic.Graph.Engine.{DiGraph, GraphEdge, GraphNode, SemanticGraph}
use maysemantic.Graph.Resolver.{
  unreachable_path, node_path, find_join_path_resolved, ResolvedJoin, windows, window_edge,
  window_join, get_node,
}

module _ ⦃D : DiGraph⦄ (graph : D.Graph) where
  -- From one node to another along edges of the graph; the list holds the nodes after the first.
  pub data Walk : ℕ → ℕ → List ℕ → Type 0 where
    stay : {a : ℕ} → Walk a a []
    step :
        {a b c : ℕ} {rest : List ℕ} (e : ℕ) (edge : GraphEdge) (left right : GraphNode)
        → D.find_edge graph a b ≡ some e
        → D.edge_weight graph e ≡ some edge
        → D.node_weight graph a ≡ some left
        → D.node_weight graph b ≡ some right
        → Walk b c rest
        → Walk a c (b ∷ rest)

  -- What `astar` is documented to give: a path from the start to a node that passes the test.
  abbrev pub FindsWalk : ℕ → ℕ → Type 0
  FindsWalk s t =
      (cost : ℕ) (path : List ℕ)
      → D.astar graph s (λ n. nat_eq n t) (λ _. 1) (λ _. 0) ≡ some (cost, path)
      → (rest : List ℕ) × (path ≡ s ∷ rest) × Walk s t rest

  -- The hops begin at the first node and end at the second, each where the one before it ended, and
  -- each over an edge of the graph.
  abbrev pub Leads : GraphNode → GraphNode → List ResolvedJoin → Type 0
  Leads l m [] = l ≡ m
  Leads l m (j ∷ js) =
      (l ≡ j.left_table)
      × ((e : ℕ) × (D.edge_weight graph e ≡ some j.edge))
      × Leads j.right_table m js

  same_node :
      {a : ℕ} (l m : GraphNode)
      → D.node_weight graph a ≡ some l
      → D.node_weight graph a ≡ some m
      → l ≡ m
  same_node l m hl hm = cc

  Walk-Leads :
      {a c : ℕ} {rest : List ℕ} (l m : GraphNode)
      → Walk a c rest
      → D.node_weight graph a ≡ some l
      → D.node_weight graph c ≡ some m
      → (js : List ResolvedJoin) × (traverse (window_join graph) (windows (a ∷ rest)) ≡ ok js)
        × Leads l m js
  unfolding traverse windows window_join window_edge
  Walk-Leads l m stay hl hm = ([], refl, same_node l m hl hm)
  Walk-Leads l m (step e edge left right found weighs at_left at_right walk) hl hm =
      let (js, h, leads) = Walk-Leads right m walk at_right hm in
      (
        record { left_table = left; right_table = right; edge = edge } ∷ js,
        rw (found, weighs, at_left, at_right, h) refl,
        (same_node l left hl at_left, (e, weighs), leads),
      )

module _ ⦃D : DiGraph⦄ (g : SemanticGraph) where
  get_node-weight :
      (name : Text) (i : ℕ) (n : GraphNode)
      → get_node g name ≡ some (i, n)
      → D.node_weight g.0 i ≡ some n
  unfolding get_node
  get_node-weight name i n h = elim (Option-cases (lookup name g.1)) [
    | inl e ↦ ground arith
    | inr (idx, e) ↦ elim (Option-cases (D.node_weight g.0 idx)) [
      | inl f ↦ ground arith
      | inr (w, f) ↦ ground arith
    ]
  ]

  -- Between two entities of the graph, and where the search of the graph library walks along edges, the
  -- resolver fails only when there is no path, never with a broken one; what it finds begins at the
  -- source and ends at the target, each hop over an edge of the graph and from where the one before it
  -- ended.
  pub find_join_path_resolved-Leads :
      (source target : Text) (s t : ℕ) (l m : GraphNode)
      → get_node g source ≡ some (s, l)
      → get_node g target ≡ some (t, m)
      → FindsWalk g.0 s t
      → (find_join_path_resolved g source target ≡ err (unreachable_path source target))
        ⊎ ((js : List ResolvedJoin) × (find_join_path_resolved g source target ≡ ok js)
            × Leads g.0 l m js)
  unfolding find_join_path_resolved node_path windows traverse
  find_join_path_resolved-Leads source target s t l m hs ht finds =
      let at_source = get_node-weight source s l hs in
      let at_target = get_node-weight target t m ht in
      elim (Bool-cases (nat_eq s t)) [
        | inl e ↦
            let same : s ≡ t = (nat_eq_iff s t).0 e in
            inr ([], rw (hs, ht, e) refl, same_node g.0 l m at_source (rw same at_target))
        | inr e ↦ elim (Option-cases (D.astar g.0 s (λ n. nat_eq n t) (λ _. 1) (λ _. 0))) [
          | inl f ↦ inl (rw (hs, ht, e, f) refl)
          | inr (found, f) ↦
              let (rest, p, walk) = finds found.0 found.1 f in
              let (js, h, leads) = Walk-Leads g.0 l m walk at_source at_target in
              inr (js, rw (hs, ht, e, f, p, h) refl, leads)
        ]
      ]
