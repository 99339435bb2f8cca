-- ===== src/Tests.antt =====
-- The theorems at concrete data.
pub mod World
pub mod Credentials
pub mod Factors
pub mod Logins
pub mod Requests
pub mod Uploads
pub mod Ocr
pub mod Ingest
pub mod Queue
pub mod Cases
pub mod Deletion
pub mod Passkeys
pub mod Chain
pub mod Migrations
pub mod Serving
pub mod Files
