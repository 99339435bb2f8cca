-- ===== src/Ingest/Pdf.antt =====
-- backend/app/ingest/pdf.py. pypdf is a parameter: what its reader tells of a file is a record of
-- answers, each of which may be an exception, one that the program catches there or any other.
pub mod Pages
pub mod TextLayer
use counselready.Common.{
  ℕ, zero, suc, ◌+◌, Bool, true, false, not, ◌||◌, Option, none, some, List, [], ◌∷◌, length, take,
  ltb, if◌then◌else◌,
}
use counselready.Common.Equality.{◌==◌, nat_eq, list_eq}
use counselready.Common.Table.{any_row}
use counselready.Common.Text.{Text, Unicode, codes, strip}
use counselready.Effects.Exceptions.{
  Exn, other_error, not_a_pdf, encrypted_pdf, unreadable_pdf, too_many_pages,
}
use counselready.Effects.Action.{
  Action, Result, ok, err, ◌>>=◌, ◌>>◌, pure, raise, or_raise, raise_if,
}
use counselready.Effects.Library.{Bytes}

abbrev pub pdf_magic : Bytes
pdf_magic = codes "%PDF-"

abbrev pub default_max_pages : ℕ
default_max_pages = 2000

abbrev pub default_max_chars_per_page : ℕ
default_max_chars_per_page = 200000

-- What a call of pypdf comes to: a value, an exception that the `except` clause around it names, or one
-- that it does not name.
pub data Answer (A : Type 0) : Type 0 where
  told : A → Answer A
  caught : Answer A
  uncaught : Answer A

-- The answer, with the exception that the `except` clause raises; an uncaught one goes on.
abbrev pub answered : {S A : Type 0} → Answer A → Exn → Action S A
answered (told a) e = pure a
answered caught e = raise e
answered uncaught e = raise other_error

-- `is_encrypted`, `decrypt("")`, `len(reader.pages)` and `reader.pages[i].extract_text()`, the last
-- two as they answer once the file is open. No `except` clause is around the first, whose `none` is an
-- exception.
pub record PdfReader : Type 0 where
  pub is_encrypted : Option Bool
  pub decrypt_empty : Answer Bool
  pub page_count : Answer ℕ
  pub extract_text : ℕ → Answer Text

pub record ExtractedPage : Type 0 where
  pub page_number : ℕ
  pub text : Text

pub record ExtractionResult : Type 0 where
  pub pages : List ExtractedPage

abbrev is_blank : Text → Bool
is_blank [] = true
is_blank (c ∷ s) = false

-- `bool(text.strip())`
abbrev pub has_text : Unicode → Text → Bool
has_text u text = not (is_blank (strip u text))

unfoldable pub needs_ocr : Unicode → ExtractionResult → Bool
needs_ocr u result = any_row (λ p. not (has_text u p.text)) result.pages

-- The empty owner password is tried on an encrypted file.
unfoldable pub unlock : {S : Type 0} → PdfReader → Action S (Unit {0})
unlock reader = do
  encrypted ← or_raise reader.is_encrypted other_error
  (if encrypted
      then (do
        opened ← answered reader.decrypt_empty encrypted_pdf
        raise_if (not opened) encrypted_pdf)
      else pure tt)

-- A page that cannot be read has the empty text, unless its exception is not caught.
abbrev pub text_or_empty : {S : Type 0} → Answer Text → Action S Text
text_or_empty (told text) = pure text
text_or_empty caught = pure []
text_or_empty uncaught = raise other_error

-- The loop over the pages from `index` on.
unfoldable pub read_pages : {S : Type 0} → PdfReader → ℕ → ℕ → ℕ → Action S (List ExtractedPage)
read_pages reader max_chars index zero = pure []
read_pages reader max_chars index (suc count) = do
  text ← text_or_empty (reader.extract_text index)
  let page : ExtractedPage = record { page_number = index + 1; text = take max_chars text }
  rest ← read_pages reader max_chars (suc index) count
  pure (page ∷ rest)

abbrev pub is_zero : ℕ → Bool
is_zero zero = true
is_zero (suc n) = false

-- What follows once the file is open.
unfoldable pub read_open : {S : Type 0} → PdfReader → ℕ → ℕ → Action S ExtractionResult
read_open reader max_pages max_chars = do
  count ← answered reader.page_count unreadable_pdf
  raise_if (ltb max_pages count) (too_many_pages max_pages)
  found ← read_pages reader max_chars 0 count
  raise_if (is_zero (length found)) unreadable_pdf
  pure (record { pages = found })

module _ (open_pdf : Bytes → Answer PdfReader) where
  unfoldable pub extract_text_layer : {S : Type 0} → Bytes → ℕ → ℕ → Action S ExtractionResult
  extract_text_layer bytes max_pages max_chars = do
    raise_if (not (take 5 bytes == pdf_magic)) not_a_pdf
    reader ← answered (open_pdf bytes) unreadable_pdf
    unlock reader
    read_open reader max_pages max_chars
