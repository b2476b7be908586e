-- ===== src/Models.antt =====
-- shared/models: identifiers and configuration values that check themselves when they are made.
pub mod StrongId
pub mod Host
pub mod Environment
pub mod Database
