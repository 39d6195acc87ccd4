-- ===== src/Tests/Graphs.antt =====
-- Graphs as lists of nodes and of edges, with a search by breadth.
use mathlib.Core.Option
use maysemantic.Prelude.{
  ℕ, zero, suc, Bool, Option, none, some, List, [], ◌∷◌, ◌++◌, if◌then◌else◌, nat_eq, ◌&&◌, length,
  any, not,
}
use maysemantic.Graph.Engine.{DiGraph, GraphNode, GraphEdge}

pub record ListGraph : Type 0 where
  pub nodes : List GraphNode
  pub edges : List (ℕ × ℕ × GraphEdge)

abbrev at {ℓ} : {A : Type ℓ} → List A → ℕ → Option A
at [] i = none
at (x ∷ xs) zero = some x
at (x ∷ xs) (suc i) = at xs i

abbrev or_else {ℓ} : {A : Type ℓ} → Option A → Option A → Option A
or_else none b = b
or_else (some a) b = some a

-- the number of the last edge between two nodes
abbrev last_edge : ℕ → List (ℕ × ℕ × GraphEdge) → ℕ → ℕ → Option ℕ
last_edge i [] a b = none
last_edge i ((x, y, e) ∷ es) a b =
    or_else (last_edge (suc i) es a b) (if nat_eq x a && nat_eq y b then some i else none)

-- the paths, in reverse, one edge longer
abbrev steps : List (ℕ × ℕ × GraphEdge) → ℕ → List ℕ → List (List ℕ)
steps [] a path = []
steps ((x, y, e) ∷ es) a path =
    if nat_eq x a && not (any (nat_eq y) path)
    then (y ∷ path) ∷ steps es a path
    else steps es a path

abbrev extend : List (ℕ × ℕ × GraphEdge) → List (List ℕ) → List (List ℕ)
extend es [] = []
extend es ([] ∷ paths) = extend es paths
extend es ((a ∷ path) ∷ paths) = steps es a (a ∷ path) ++ extend es paths

abbrev reach : (ℕ → Bool) → List (List ℕ) → Option (List ℕ)
reach goal [] = none
reach goal ([] ∷ paths) = reach goal paths
reach goal ((a ∷ path) ∷ paths) = if goal a then some (a ∷ path) else reach goal paths

abbrev reverse_onto : List ℕ → List ℕ → List ℕ
reverse_onto acc [] = acc
reverse_onto acc (x ∷ xs) = reverse_onto (x ∷ acc) xs

abbrev search_by_breadth :
    ℕ → List (ℕ × ℕ × GraphEdge) → (ℕ → Bool) → List (List ℕ) → Option (List ℕ)
search_by_breadth zero es goal paths = none
search_by_breadth (suc fuel) es goal paths =
    or_else (reach goal paths) (search_by_breadth fuel es goal (extend es paths))

instance abbrev pub list_graph : DiGraph
list_graph = record {
  Graph = ListGraph;
  new_graph = record { nodes = []; edges = [] };
  add_node = λ g n. (record g { nodes = g.nodes ++ (n ∷ []) }, length g.nodes);
  add_edge = λ g a b e. record g { edges = g.edges ++ ((a, b, e) ∷ []) };
  node_weight = λ g i. at g.nodes i;
  find_edge = λ g a b. last_edge 0 g.edges a b;
  edge_weight = λ g i. Option.map (λ t. t.2) (at g.edges i);
  astar = λ g a goal cost estimate.
      Option.map (λ p. (length p, reverse_onto [] p))
        (search_by_breadth (suc (length g.nodes)) g.edges goal ((a ∷ []) ∷ []));
}
