-- ===== src/Ingest.antt =====
-- backend/app/ingest: what becomes of an upload.
pub mod Limits
pub mod Ocr
pub mod Pdf
pub mod Service
