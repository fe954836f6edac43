-- ===== src/Router.antt =====
-- The package backend/pkg/router.
pub mod Spec
pub mod Parameters
pub mod Builder
mod Tests
