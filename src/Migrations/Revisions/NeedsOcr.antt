-- ===== src/Migrations/Revisions/NeedsOcr.antt =====
-- Revision c3f07a19b842: the document status needs_ocr (backend/alembic/versions/c3f07a19b842_add_needs_ocr_status.py).
use counselready.Common.{String, some, List, [], ◌∷◌}
use counselready.Migrations.Operations.{
  Op, add_value, update_where, rename_type, create_type, alter_column_type, drop_type,
}

abbrev pub without_needs_ocr : List String
without_needs_ocr = "pending" ∷ "processing" ∷ "complete" ∷ "failed" ∷ []

abbrev pub upgrade : List Op
upgrade = add_value "ocr_status" "needs_ocr" (some "processing") ∷ []

abbrev pub downgrade : List Op
downgrade =
    update_where "document" "ocr_status" "pending" "needs_ocr"
    ∷ rename_type "ocr_status" "ocr_status_old"
    ∷ create_type "ocr_status" without_needs_ocr
    ∷ alter_column_type "document" "ocr_status" "ocr_status"
    ∷ drop_type "ocr_status_old"
    ∷ []
