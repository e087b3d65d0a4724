-- ===== src/Engine.antt =====
-- engine/: the security of a container's process, and its configuration.
pub mod Security
pub mod Config
pub mod Cgroups
pub mod Volumes
pub mod Container
pub mod Networking
pub mod Tests
