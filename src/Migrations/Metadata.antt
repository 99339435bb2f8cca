-- ===== src/Migrations/Metadata.antt =====
-- What the models declare (backend/app/models, backend/app/jobs/models.py).
pub mod Names
pub mod Model
pub mod Accounts
pub mod Cases
pub mod Timeline
