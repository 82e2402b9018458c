-- ===== src/Spec.antt =====
-- internal/sloff/spec: the sloff.yml data, its validation, and the depends entries.
pub mod Defs
pub mod Paths
pub mod Commands
pub mod References
pub mod Expand
pub mod Registry
pub mod Tests
unfoldable pub use Defs.*
