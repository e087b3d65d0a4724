-- ===== src/Orchestrator.antt =====
-- orchestrator/: the health checks and the manifest.
pub mod Health
pub mod Manifest
pub mod Compose
pub mod Tests
