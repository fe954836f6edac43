-- ===== src/Generate/Extract.antt =====
-- The extraction of types from Go sources: backend/pkg/generate/collector_ast.go and collector_enum.go.
pub mod Ast
pub mod Analyze
pub mod Comments
pub mod Fields
pub mod Enums
pub mod Files
pub mod Primitives
pub mod Schemas
pub mod Listed
pub mod Names
pub mod Passes
pub mod Documented
pub mod Order
pub mod Lost
