-- ===== src/Tests/Uploads.antt =====
-- Uploads at concrete data.
use counselready.Common.{zero, suc, ℕ, ◌≡◌, refl, true, some, List, [], ◌∷◌}
use counselready.Common.Equality.{nat_eq, list_eq, ℕ_discrete}
use counselready.Common.Table.{any_row}
use counselready.Common.Text.{codes, strip}
use counselready.Effects.Exceptions.{upload_too_large}
use counselready.Effects.Action.{ok, err}
use counselready.Effects.Library.{Bytes}
use counselready.Ingest.Limits.{read_bounded, read_chunks}
use counselready.Ingest.Limits.Bounds.{Bounded, read_bounded-Bounded}
use counselready.Ingest.Pdf.{
  told, caught, PdfReader, ExtractionResult, extract_text_layer, needs_ocr, unlock, read_open,
  read_pages,
}
use counselready.Ingest.Pdf.TextLayer.{Extracts, extract_text_layer-Extracts}
use counselready.Tests.World.{toy}

abbrev chunks : List Bytes
chunks = codes "abc" ∷ codes "de" ∷ codes "fg" ∷ []

-- The second chunk crosses a limit of four bytes, and the third is not read.
stops_early : read_bounded 4 (some 3) chunks ≡ (err (upload_too_large 4), codes "fg" ∷ [])
unfolding read_bounded read_chunks
stops_early = refl

read_bounded-Bounded_example : Bounded 4 (some 3) chunks (read_bounded 4 (some 3) chunks)
read_bounded-Bounded_example = read_bounded-Bounded 4 (some 3) chunks

-- A file of two pages, the second of which cannot be read.
abbrev reader : PdfReader
reader = record {
  is_encrypted = some true;
  decrypt_empty = told true;
  page_count = told 2;
  extract_text = λ i. elim i [ zero ↦ told (codes "Order") | suc n ↦ caught ];
}

abbrev file : Bytes
file = codes "%PDF-1.7"

abbrev extracted : ExtractionResult
extracted = record {
  pages =
      record { page_number = 1; text = codes "Ord" } ∷ record { page_number = 2; text = [] } ∷ [];
}

extracts : extract_text_layer (λ b. told reader) {S = ℕ} file 10 3 0 ≡ (ok extracted, 0)
unfolding extract_text_layer unlock read_open read_pages ℕ_discrete list_eq
extracts = refl

extract_text_layer-Extracts_example :
    Extracts {S = ℕ}
      (λ b. told reader)
      file
      10
      3
      0
      (extract_text_layer (λ b. told reader) {S = ℕ} file 10 3 0)
extract_text_layer-Extracts_example =
    extract_text_layer-Extracts {S = ℕ} (λ b. told reader) file 10 3 0

still_needs_ocr : needs_ocr toy.unicode extracted ≡ true
unfolding needs_ocr any_row strip ℕ_discrete
still_needs_ocr = refl
