-- ===== src/Cluster/State.antt =====
-- cluster/state.py: the SQLite store. A method that writes takes the store to the next one.
mod Events
mod Nodes
mod Deployments
mod Containers
mod Assignments
mod Overview
unfoldable pub use Events.*
unfoldable pub use Nodes.*
unfoldable pub use Deployments.*
unfoldable pub use Containers.*
unfoldable pub use Assignments.*
unfoldable pub use Overview.*
