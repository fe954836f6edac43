-- ===== src/Utils.antt =====
-- The packages backend/pkg/utils and backend/internal/config.
pub mod Version
pub mod Url
pub mod Config
mod Tests
