-- ===== src/Ingest/Pdf/TextLayer.antt =====
-- What a text layer holds.
use counselready.Common.{
  some, true, ◌<◌, none, ℕ, ◌≤◌, ◌≡◌, ◌⊎◌, ◌↔◌, inl, inr, refl, sym, arith, subst, true, false, not,
  List, [], ◌∷◌, length, take, ltb, Bool-cases, Option-cases, All,
}
use counselready.Common.Equality.{==-sound, ◌==◌, nat_eq, list_eq}
use counselready.Common.Table.{any_row}
use counselready.Common.Text.{Unicode}
use counselready.Effects.Exceptions.{
  other_error, Exn, not_a_pdf, encrypted_pdf, unreadable_pdf, too_many_pages,
}
use counselready.Effects.Action.{Action, raise_if, ◌>>=◌, pure, ◌>>◌, Result, ok, err}
use counselready.Effects.Library.{Bytes}
use counselready.Ingest.Pdf.Pages.{Numbered, Answer-cases, Reads, read_pages-Reads}
use counselready.Ingest.Pdf.{
  Answer, told, uncaught, read_open, PdfReader, ExtractedPage, ExtractionResult, pdf_magic,
  has_text, needs_ocr, unlock, read_pages, is_zero, extract_text_layer,
}
use counselready.Effects.Action.Laws.{>>=-rule}

any_row-none :
    (u : Unicode) (ps : List ExtractedPage)
    → any_row (λ p. not (has_text u p.text)) ps ≡ false
    → All (λ p. has_text u p.text ≡ true) ps
unfolding any_row
any_row-none u [] h = tt
any_row-none u (p ∷ ps) h = (ground arith, any_row-none u ps (ground arith))

none-any_row :
    (u : Unicode) (ps : List ExtractedPage)
    → All (λ p. has_text u p.text ≡ true) ps
    → any_row (λ p. not (has_text u p.text)) ps ≡ false
unfolding any_row
none-any_row u [] h = refl
none-any_row u (p ∷ ps) (here, there) = ground (arith, here, none-any_row u ps there)

-- A document needs no OCR exactly when every page of it has text.
pub needs_ocr_iff :
    (u : Unicode) (result : ExtractionResult)
    → (needs_ocr u result ≡ false) ↔ All (λ p. has_text u p.text ≡ true) result.pages
unfolding needs_ocr
needs_ocr_iff u result = (any_row-none u result.pages, none-any_row u result.pages)

-- What pypdf says when an exception that the program does not catch ends an extraction.
abbrev pub Crashes : PdfReader → Type 0
Crashes reader =
    (reader.is_encrypted ≡ none)
    ⊎ (reader.is_encrypted ≡ some true) × (reader.decrypt_empty ≡ uncaught)
    ⊎ (reader.page_count ≡ uncaught)
    ⊎ (count : ℕ) × (reader.page_count ≡ told count)
      × (i : ℕ) × (i < count)
      × (reader.extract_text i ≡ uncaught)

-- The four errors of the module.
abbrev pub IsRefusal : ℕ → Exn → Type 0
IsRefusal max_pages e =
    (e ≡ not_a_pdf) ⊎ (e ≡ encrypted_pdf) ⊎ (e ≡ unreadable_pdf) ⊎ (e ≡ too_many_pages max_pages)

module _ {S : Type 0} (reader : PdfReader) (max_pages max_chars : ℕ) (s : S) where
  -- The opening of an encrypted file.
  abbrev Unlocks : Result (Unit {0}) × S → Type 0
  Unlocks (ok u, s') = s' ≡ s
  Unlocks (err e, s') = (IsRefusal max_pages e ⊎ (e ≡ other_error) × Crashes reader) × (s' ≡ s)

  unlock-Unlocks : Unlocks (unlock reader s)
  unfolding unlock
  unlock-Unlocks = elim (Option-cases reader.is_encrypted) [
    | inl crash ↦ rw crash (inr (refl, inl refl), refl)
    | inr (encrypted, e) ↦ rw e (elim (Bool-cases encrypted) [
      | inr plain ↦ rw plain refl
      | inl locked ↦ rw locked (elim (Answer-cases reader.decrypt_empty) [
        | inl (opened, d) ↦ rw d (elim (Bool-cases opened) [
          | inl free ↦ rw free refl
          | inr shut ↦ rw shut (inl (inr (inl refl)), refl)
        ])
        | inr (inl d) ↦ rw d (inl (inr (inl refl)), refl)
        | inr (inr d) ↦ rw d (inr (refl, inr (inl (refl, refl))), refl)
      ])
    ])
  ]

  -- What an open file yields.
  abbrev pub Yields : Result ExtractionResult × S → Type 0
  Yields (ok result, s') =
      (count : ℕ) × (reader.page_count ≡ told count)
      × (length result.pages ≡ count)
      × (1 ≤ count)
      × (count ≤ max_pages)
      × Numbered max_chars 1 result.pages
      × (s' ≡ s)
  Yields (err e, s') = (IsRefusal max_pages e ⊎ (e ≡ other_error) × Crashes reader) × (s' ≡ s)

  finish : List ExtractedPage → Action S ExtractionResult
  finish found = do
    raise_if (is_zero (length found)) unreadable_pdf
    pure (record { pages = found })

  finish-Yields :
      (count : ℕ) (ps : List ExtractedPage) (t : S)
      → reader.page_count ≡ told count
      → ltb max_pages count ≡ false
      → Reads reader max_chars s 0 count (ok ps, t)
      → Yields (finish ps t)
  unfolding finish
  finish-Yields count ps t counted fits (all, numbered, kept) =
      elim (Bool-cases (is_zero (length ps))) [
        | inl nothing ↦ rw nothing (inl (inr (inr (inl refl))), kept)
        | inr left ↦ rw left (count, counted, all, ground arith, ground arith, numbered, kept)
      ]

  counted-Yields :
      (count : ℕ)
      → reader.page_count ≡ told count
      → ltb max_pages count ≡ false
      → Yields ((read_pages reader max_chars 0 count >>= finish) s)
  counted-Yields count counted fits =
      >>=-rule (read_pages reader max_chars 0 count) finish s (Reads reader max_chars s 0 count)
        Yields (read_pages-Reads reader max_chars s 0 count)
        (λ ps t h. finish-Yields count ps t counted fits h)
        (λ e t h.
          (inr (h.0.0, inr (inr (inr (count, counted, h.0.1, omega (arith, h.0.2), h.0.3)))), h.1))

  read_open-Yields : Yields (read_open reader max_pages max_chars s)
  unfolding read_open finish
  read_open-Yields = elim (Answer-cases reader.page_count) [
    | inl (count, counted) ↦ elim (Bool-cases (ltb max_pages count)) [
      | inl over ↦
          let e : read_open reader max_pages max_chars s ≡ (err (too_many_pages max_pages), s) =
            rw (counted, over) refl in
          subst Yields (sym e) (inl (inr (inr (inr refl))), refl)
      | inr fits ↦
          let e : read_open reader max_pages max_chars s
              ≡ (read_pages reader max_chars 0 count >>= finish) s =
            rw (counted, fits) refl in
          subst Yields (sym e) (counted-Yields count counted fits)
    ]
    | inr (inl bad) ↦
        let e : read_open reader max_pages max_chars s ≡ (err unreadable_pdf, s) = rw bad refl in
        subst Yields (sym e) (inl (inr (inr (inl refl))), refl)
    | inr (inr crash) ↦
        let e : read_open reader max_pages max_chars s ≡ (err other_error, s) = rw crash refl in
        subst Yields (sym e) (inr (refl, inr (inr (inl crash))), refl)
  ]

module _ {S : Type 0} (open_pdf : Bytes → Answer PdfReader) (bytes : Bytes)
    (max_pages max_chars : ℕ) (s : S) where
  -- An exception of pypdf that the program does not catch.
  abbrev pub IsCrash : Type 0
  IsCrash =
      (open_pdf bytes ≡ uncaught)
      ⊎ (reader : PdfReader) × (open_pdf bytes ≡ told reader) × Crashes reader

  -- An extraction and its errors.
  abbrev pub Extracts : Result ExtractionResult × S → Type 0
  Extracts (ok result, s') =
      (reader : PdfReader) × (take 5 bytes ≡ pdf_magic)
      × (open_pdf bytes ≡ told reader)
      × Yields reader max_pages max_chars s (ok result, s')
  Extracts (err e, s') = (IsRefusal max_pages e ⊎ (e ≡ other_error) × IsCrash) × (s' ≡ s)

  crashed :
      (reader : PdfReader) (e : Exn)
      → open_pdf bytes ≡ told reader
      → IsRefusal max_pages e ⊎ (e ≡ other_error) × Crashes reader
      → IsRefusal max_pages e ⊎ (e ≡ other_error) × IsCrash
  crashed reader e opened (inl refused) = inl refused
  crashed reader e opened (inr (other, crash)) = inr (other, inr (reader, opened, crash))

  Yields-Extracts :
      (reader : PdfReader) (r : Result ExtractionResult × S)
      → take 5 bytes ≡ pdf_magic
      → open_pdf bytes ≡ told reader
      → Yields reader max_pages max_chars s r
      → Extracts r
  Yields-Extracts reader (ok result, s') magic opened h = (reader, magic, opened, h)
  Yields-Extracts reader (err e, s') magic opened h = (crashed reader e opened h.0, h.1)

  opened-Extracts :
      (reader : PdfReader)
      → take 5 bytes ≡ pdf_magic
      → open_pdf bytes ≡ told reader
      → Extracts ((unlock reader >> read_open reader max_pages max_chars) s)
  opened-Extracts reader magic opened =
      >>=-rule (unlock reader) (λ _. read_open reader max_pages max_chars) s
        (Unlocks reader max_pages max_chars s) Extracts
        (unlock-Unlocks reader max_pages max_chars s)
        (λ _ t kept.
          subst (λ t. Extracts (read_open reader max_pages max_chars t)) (sym kept)
            (Yields-Extracts reader _ magic opened (read_open-Yields reader max_pages max_chars s)))
        (λ e t h. (crashed reader e opened h.0, h.1))

  -- An extraction that succeeds was of bytes with the PDF header, which pypdf opens: it returns every
  -- page, however many of them could not be read, at least one and at most the cap, numbered from 1 without
  -- a gap, none of them longer than the cap of characters. It fails otherwise with one of four errors, or
  -- with an exception that pypdf raised, when it opened the file, was asked for the encryption, tried the
  -- empty password, counted the pages or read one of them, and that no `except` clause there names.
  pub extract_text_layer-Extracts :
      Extracts (extract_text_layer open_pdf bytes max_pages max_chars s)
  unfolding extract_text_layer
  extract_text_layer-Extracts = elim (Bool-cases (take 5 bytes == pdf_magic)) [
    | inr other ↦ rw (other, extract_text_layer) (inl (inl refl), refl)
    | inl magic ↦
        rw (magic, extract_text_layer)
          (elim (Answer-cases (open_pdf bytes)) [
            | inl (reader, opened) ↦
                rw opened (opened-Extracts reader (==-sound (take 5 bytes) pdf_magic magic) opened)
            | inr (inl bad) ↦ rw bad (inl (inr (inr (inl refl))), refl)
            | inr (inr crash) ↦ rw crash (inr (refl, inl crash), refl)
          ])
  ]
