-- ===== src/Models.antt =====
-- The semantic models, may_core/src/models.
pub mod Core
pub mod State
