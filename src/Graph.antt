-- ===== src/Graph.antt =====
-- The graph of entities, may_core/src/graph.
pub mod Engine
pub mod Resolver
