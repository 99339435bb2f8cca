-- ===== src/Migrations.antt =====
-- The Alembic migrations: the schema they build, the operations they send, and the revisions.
pub mod Schema
pub mod Operations
pub mod Apply
pub mod Recast
pub mod Run
pub mod Revisions
pub mod Chain
pub mod WellFormed
pub mod Undo
pub mod AddedColumn
pub mod Preserved
pub mod Altered
pub mod Reversal
pub mod Rebuild
pub mod Values
pub mod Statuses
pub mod Extension
pub mod RoundTrip
pub mod Metadata
pub mod Drift
pub mod Declared
pub mod LostActions
