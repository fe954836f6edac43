-- ===== src/Generate/OpenApi.antt =====
-- The OpenAPI document of backend/pkg/generate/openapi.go.
pub mod Schema
pub mod Types
pub mod Refs
pub mod Closed
pub mod Document
pub mod Paths
pub mod Components
pub mod Operations
pub mod Each
pub mod Dangling
pub mod Shape
pub mod Sound
pub mod Runs
pub mod Processes
pub mod Registered
pub mod Success
pub mod Buildable
pub mod Complete
