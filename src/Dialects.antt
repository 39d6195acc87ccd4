-- ===== src/Dialects.antt =====
-- From the tree to SQL text, may_core/src/dialects.
pub mod Quote
pub mod Writer
