-- ===== src/Fingerprint.antt =====
-- internal/sloff/fingerprint: the record, its canonical order, and the storage backends.
pub mod Defs
pub mod Canonical
pub mod Bytes
pub mod Cached
pub mod Local
pub mod Dynamo
pub mod Tests
unfoldable pub use Defs.*
