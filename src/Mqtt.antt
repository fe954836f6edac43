-- ===== src/Mqtt.antt =====
-- The package backend/pkg/mqtt.
pub mod Topic
pub mod Specs
pub mod Parameters
pub mod Builder
pub mod Client
pub mod Connection
mod Tests
