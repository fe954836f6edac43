-- ===== src/Api.antt =====
-- The package backend/internal/shared/api, with the error response of backend/internal/shared/types.
pub mod Context
pub mod Writer
pub mod Errors
pub mod Handlers
pub mod Json
pub mod Responses
pub mod Health
mod Tests
