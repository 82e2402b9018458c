-- ===== src/Fingerprint/Dynamo.antt =====
-- internal/sloff/fingerprint/dynamodb: the backend that keeps each record in an item of a table.
pub mod Keys
pub mod Chunks
pub mod Store
pub mod Bulk
pub mod Many
pub mod RoundTrip
pub mod Tests
