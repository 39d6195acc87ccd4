-- ===== src/Graph/Engine.antt =====
-- The graph of entities and joins, may_core/src/graph/engine.rs. The crate `petgraph` is the
-- parameter `DiGraph`.
pub mod Builds
use maysemantic.Prelude.{
  ℕ, Text, Bool, Option, List, [], ◌∷◌, lookup, insert, text_key, values, Result, ok, ◌>>=◌, ok_or,
  fold_result,
}
use maysemantic.Ast.Node.{JoinType}
use maysemantic.Models.Core.{Entity, JoinDefinition, SemanticModel}
use maysemantic.Compiler.Lowering.{ModelMap}

pub data GraphError : Type 0 where
  missing_node : Text → GraphError

pub record GraphNode : Type 0 where
  pub entity_name : Text
  pub table_name : Text
  pub primary_key : Text

pub record GraphEdge : Type 0 where
  pub left_column : Text
  pub right_column : Text
  pub join_type : JoinType

-- What the program calls of `petgraph`, at the weights of `SemanticGraph`. Indices of nodes and
-- edges are numbers. `astar` takes the start, the goal test, the cost of an edge and the estimate.
pub record DiGraph : Type 1 where
  pub Graph : Type 0
  pub new_graph : Graph
  pub add_node : Graph → GraphNode → Graph × ℕ
  pub add_edge : Graph → ℕ → ℕ → GraphEdge → Graph
  pub node_weight : Graph → ℕ → Option GraphNode
  pub find_edge : Graph → ℕ → ℕ → Option ℕ
  pub edge_weight : Graph → ℕ → Option GraphEdge
  pub astar : Graph → ℕ → (ℕ → Bool) → (ℕ → ℕ) → (ℕ → ℕ) → Option (ℕ × List ℕ)

abbrev pub node_of : Entity → GraphNode
node_of entity = record {
  entity_name = entity.name;
  table_name = entity.table;
  primary_key = entity.primary_key;
}

abbrev pub edge_of : JoinDefinition → GraphEdge
edge_of join = record {
  left_column = join.left_column;
  right_column = join.right_column;
  join_type = join.join_type;
}

abbrev pub reverse_edge : GraphEdge → GraphEdge
reverse_edge edge = record edge { left_column = edge.right_column; right_column = edge.left_column }

module _ ⦃D : DiGraph⦄ where
  -- a graph and the map from entity names to its nodes
  abbrev pub SemanticGraph : Type 0
  SemanticGraph = D.Graph × List (Text × ℕ)

  unfoldable pub add_entity : SemanticGraph → Entity → SemanticGraph
  add_entity (graph, indices) entity =
      let (graph', idx) = D.add_node graph (node_of entity) in
      (graph', insert entity.name idx indices)

  unfoldable pub add_entities : SemanticGraph → List Entity → SemanticGraph
  unfolding add_entity
  add_entities g [] = g
  add_entities g (e ∷ es) = add_entities (add_entity g e) es

  -- pass 1
  unfoldable pub add_models : SemanticGraph → List SemanticModel → SemanticGraph
  unfolding add_entities
  add_models g [] = g
  add_models g (m ∷ ms) = add_models (add_entities g m.entities) ms

  -- both directions of one join
  unfoldable pub add_join : List (Text × ℕ) → D.Graph → JoinDefinition → Result GraphError D.Graph
  add_join indices graph join = do
    left_idx ← ok_or (lookup join.left_entity indices) (missing_node join.left_entity)
    right_idx ← ok_or (lookup join.right_entity indices) (missing_node join.right_entity)
    let edge = edge_of join
    let there = D.add_edge graph left_idx right_idx edge
    ok (D.add_edge there right_idx left_idx (reverse_edge edge))

  unfoldable pub add_joins : List (Text × ℕ) → D.Graph → SemanticModel → Result GraphError D.Graph
  unfolding add_join
  add_joins indices graph model = fold_result (add_join indices) graph model.joins

  unfoldable pub build_semantic_graph : ModelMap → Result GraphError SemanticGraph
  unfolding add_models add_joins
  build_semantic_graph models = do
    let (graph, indices) = add_models (D.new_graph, []) (values models)
    graph' ← fold_result (add_joins indices) graph (values models)
    ok (graph', indices)
