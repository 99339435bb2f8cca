-- ===== src/Migrations/Revisions.antt =====
-- The revisions of the schema, from the first to the head (backend/alembic/versions).
pub mod Columns
pub mod CaseFile
pub mod TimelineEvents
pub mod NeedsOcr
pub mod Accounts
pub mod Mfa
pub mod AuditTrail
pub mod Passkeys
pub mod JobQueue
pub mod TimelineNotes
