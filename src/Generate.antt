-- ===== src/Generate.antt =====
-- The package backend/pkg/generate.
pub mod Sanitize
pub mod Params
pub mod Values
pub mod DocTypes
pub mod Interface
pub mod Marks
pub mod Collector
pub mod Relations
pub mod Usages
pub mod OpenApi
pub mod Extract
mod Tests
