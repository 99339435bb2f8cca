-- ===== src/Models.antt =====
-- The tables of the program and the database that holds them: backend/app/models, and
-- backend/app/jobs/models.py.
pub mod Cascade
pub mod Accounts
pub mod Cases
pub mod Documents
pub mod Timeline
pub mod Jobs
pub mod Database
