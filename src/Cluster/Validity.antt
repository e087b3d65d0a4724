-- ===== src/Cluster/Validity.antt =====
-- The constraints of the schema (primary keys, UNIQUE, foreign keys), as an invariant of the store.
mod Tables
mod Methods
pub mod Steps
pub use Tables.{Valid, IsValid}
pub use Methods.*
