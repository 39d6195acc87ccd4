-- ===== src/Graph/Resolver.antt =====
-- Join paths, may_core/src/graph/resolver.rs, with `ResolvedJoin` of
-- may_core/src/compiler/join_builder.rs.
pub mod Hops
pub mod Leads
use mathlib.Core.Option
use maysemantic.Prelude.{
  ◌++◌, show_nat, str, ℕ, Text, Option, some, none, List, [], ◌∷◌, if◌then◌else◌, nat_eq, lookup,
  text_key, Result, ok, ◌>>=◌, ok_or, traverse,
}
use maysemantic.Graph.Engine.{DiGraph, GraphNode, GraphEdge, SemanticGraph}

pub data JoinResolutionError : Type 0 where
  table_not_found : Text → JoinResolutionError
  unreachable_path : Text → Text → JoinResolutionError
  broken_path : Text → Text → JoinResolutionError

pub record ResolvedJoin : Type 0 where
  pub left_table : GraphNode
  pub right_table : GraphNode
  pub edge : GraphEdge

-- `path.windows(2)`
unfoldable pub windows {ℓ} : {A : Type ℓ} → List A → List (A × A)
windows [] = []
windows (a ∷ []) = []
windows (a ∷ b ∷ rest) = (a, b) ∷ windows (b ∷ rest)

module _ ⦃D : DiGraph⦄ where
  unfoldable pub get_node : SemanticGraph → Text → Option (ℕ × GraphNode)
  get_node (graph, indices) entity_name = elim (lookup entity_name indices) [
    | none ↦ none
    | some idx ↦ Option.map (λ n. (idx, n)) (D.node_weight graph idx)
  ]

  -- The nodes of a shortest path, which is empty from an entity to itself: the part that
  -- `find_join_path` and `find_join_path_resolved` have in common.
  unfoldable pub node_path : SemanticGraph → Text → Text → Result JoinResolutionError (List ℕ)
  unfolding get_node
  node_path g source_table target_table = do
    source ← ok_or (get_node g source_table) (table_not_found source_table)
    target ← ok_or (get_node g target_table) (table_not_found target_table)
    if nat_eq source.0 target.0 then ok [] else (do
      found ←
          ok_or (D.astar g.0 source.0 (λ n. nat_eq n target.0) (λ _. 1) (λ _. 0))
            (unreachable_path source_table target_table)
      ok found.1)

  node_label : D.Graph → ℕ → Text
  node_label graph idx = elim (D.node_weight graph idx) [
    | some n ↦ n.entity_name
    | none ↦ str "<node " ++ (show_nat idx ++ str ">")
  ]

  abbrev broken_at : ℕ → ℕ → JoinResolutionError
  broken_at from_idx to_idx = broken_path (show_nat from_idx) (show_nat to_idx)

  -- the closures over a window
  unfoldable pub window_edge : D.Graph → ℕ × ℕ → Result JoinResolutionError GraphEdge
  unfolding node_label
  window_edge graph (from_idx, to_idx) = do
    edge_idx ←
        ok_or (D.find_edge graph from_idx to_idx)
          (broken_path (node_label graph from_idx) (node_label graph to_idx))
    ok_or (D.edge_weight graph edge_idx) (broken_at from_idx to_idx)

  unfoldable pub window_join : D.Graph → ℕ × ℕ → Result JoinResolutionError ResolvedJoin
  window_join graph (from_idx, to_idx) = do
    edge ← window_edge graph (from_idx, to_idx)
    left_node ← ok_or (D.node_weight graph from_idx) (broken_at from_idx to_idx)
    right_node ← ok_or (D.node_weight graph to_idx) (broken_at from_idx to_idx)
    ok (record { left_table = left_node; right_table = right_node; edge = edge })

  unfoldable pub find_join_path :
      SemanticGraph → Text → Text → Result JoinResolutionError (List GraphEdge)
  find_join_path g source_table target_table = do
    path ← node_path g source_table target_table
    traverse (window_edge g.0) (windows path)

  unfoldable pub find_join_path_resolved :
      SemanticGraph → Text → Text → Result JoinResolutionError (List ResolvedJoin)
  find_join_path_resolved g source_table target_table = do
    path ← node_path g source_table target_table
    traverse (window_join g.0) (windows path)
