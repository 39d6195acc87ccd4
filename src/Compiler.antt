-- ===== src/Compiler.antt =====
-- The compiler from semantic requests to SQL, may_core/src/compiler.
pub mod Lowering
pub mod Rls
pub mod Fanout
pub mod Request
pub mod MetricResolver
pub mod ChasmTrap
pub mod Semantic
