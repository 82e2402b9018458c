-- ===== src/Fingerprint/Local.antt =====
-- internal/sloff/fingerprint/local/local.go: the backend that keeps each record in a file.
pub mod Filename
pub mod Timestamp
pub mod Store
pub mod Matches
pub mod Effects
pub mod Saved
pub mod Loads
pub mod RoundTrip
pub mod Deleted
pub mod Listing
pub mod Backend
pub mod Tests
