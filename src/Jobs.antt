-- ===== src/Jobs.antt =====
-- backend/app/jobs: the queue that the database holds.
pub mod Queue
