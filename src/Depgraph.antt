-- ===== src/Depgraph.antt =====
-- internal/sloff/depgraph/depgraph.go: the task graph and its execution order.
mod Defs
mod Kahn
mod Heights
pub mod Build
pub mod Missing
unfoldable pub use Defs.*
