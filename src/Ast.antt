-- ===== src/Ast.antt =====
-- The abstract syntax tree, may_core/src/ast.
pub mod Node
pub mod Combiners
pub mod Physical
pub mod Builder
