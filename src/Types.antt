-- ===== src/Types.antt =====
-- src/internal/types.ts: the types that the components share.
pub mod Configuration
pub mod Evidence
