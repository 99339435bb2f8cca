-- ===== src/Effects/Exceptions.antt =====
-- The exceptions of the application, one constructor for each class, with the fields that a handler
-- reads. Their messages are left out, except the detail of an `HTTPException`.
use counselready.Common.{ℕ, String, Option}

-- Failure classes of backend/app/ingest/ocr.py
pub data OcrErrorClass : Type 0 where
  ocr_engine_unavailable document_bytes_missing ocr_engine_failed document_not_found : OcrErrorClass

pub data Exn : Type 0 where
  authentication_error : Exn
  rate_limited : ℕ → Exn
  email_already_registered : Exn
  invalid_refresh_token : Exn
  weak_password : Exn
  invalid_access_token : Exn
  invalid_challenge : Exn
  mfa_not_configured : Exn
  secret_decryption : Exn
  mfa_already_enrolled : Exn
  mfa_not_enrolled : Exn
  invalid_mfa_code : Exn
  passkey_verification : Exn
  upload_too_large : ℕ → Exn
  empty_upload : Exn
  not_a_pdf : Exn
  encrypted_pdf : Exn
  unreadable_pdf : Exn
  too_many_pages : ℕ → Exn
  duplicate_document : ℕ → Exn
  ocr_failure : OcrErrorClass → Exn
  ocr_unavailable : Exn
  object_not_found : Exn
  value_error : Exn
  startup_configuration : Exn
  database_not_configured : Exn
  -- Python's `RuntimeError`
  runtime_error : Exn
  -- SQLAlchemy's `IntegrityError`: a unique index refuses the row.
  integrity_error : Exn
  -- Any exception of a library that no handler names.
  other_error : Exn
  -- FastAPI's `HTTPException`: the status, the detail, and the number that a header or the detail
  -- carries with it.
  http : ℕ → String → Option ℕ → Exn
