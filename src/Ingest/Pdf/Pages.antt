-- ===== src/Ingest/Pdf/Pages.antt =====
-- The loop of backend/app/ingest/pdf.py over the pages of a file.
use counselready.Common.{
  ◌+◌, ◌<◌, ℕ, zero, suc, ◌≤◌, ◌≡◌, ◌⊎◌, inl, inr, refl, arith, ap, List, [], ◌∷◌, length,
  length-take,
}
use counselready.Common.Equality.{nat_eq, list_eq}
use counselready.Effects.Exceptions.{other_error}
use counselready.Effects.Action.{◌>>=◌, pure, Result, ok, err}
use counselready.Ingest.Pdf.{Answer, told, caught, uncaught, PdfReader, ExtractedPage, read_pages}
use counselready.Effects.Action.Laws.{>>=-rule}

-- The pages are numbered from `i` on, without a gap, and no text is longer than the cap.
abbrev pub Numbered : ℕ → ℕ → List ExtractedPage → Type 0
Numbered max_chars i [] = Unit
Numbered max_chars i (p ∷ ps) =
    (p.page_number ≡ i) × (length p.text ≤ max_chars) × Numbered max_chars (suc i) ps

pub Answer-cases :
    {A : Type 0} (a : Answer A) → ((x : A) × (a ≡ told x)) ⊎ (a ≡ caught) ⊎ (a ≡ uncaught)
Answer-cases (told x) = inl (x, refl)
Answer-cases caught = inr (inl refl)
Answer-cases uncaught = inr (inr refl)

module _ {S : Type 0} (reader : PdfReader) (max_chars : ℕ) (s : S) where
  -- What the loop over the pages from `index` on comes to.
  abbrev pub Reads : ℕ → ℕ → Result (List ExtractedPage) × S → Type 0
  Reads index count (ok ps, s') = (length ps ≡ count) × Numbered max_chars (suc index) ps × (s' ≡ s)
  Reads index count (err e, s') =
      ((e ≡ other_error) × (i : ℕ) × (i < index + count) × (reader.extract_text i ≡ uncaught))
      × (s' ≡ s)

  page-Reads :
      (index count : ℕ) (page : ExtractedPage)
      → page.page_number ≡ suc index
      → length page.text ≤ max_chars
      → Reads (suc index) count (read_pages reader max_chars (suc index) count s)
      → Reads index
          (suc count)
          ((read_pages reader max_chars (suc index) count >>= λ rest. pure (page ∷ rest)) s)
  page-Reads index count page numbered capped = λ later.
      >>=-rule (read_pages reader max_chars (suc index) count) (λ rest. pure (page ∷ rest)) s
        (Reads (suc index) count) (Reads index (suc count)) later
        (λ ps t h. (ap suc h.0, (numbered, capped, h.1), h.2))
        (λ e t h. ((h.0.0, h.0.1, omega arith, h.0.3), h.1))

  pub read_pages-Reads :
      (index count : ℕ) → Reads index count (read_pages reader max_chars index count s)
  unfolding read_pages
  read_pages-Reads index zero = (refl, tt, refl)
  read_pages-Reads index (suc count) =
      let later = read_pages-Reads (suc index) count in
      elim (Answer-cases (reader.extract_text index)) [
        | inl (text, e) ↦ rw e (
            page-Reads index count _ (omega arith) (omega (arith, length-take max_chars text))
              later)
        | inr (inl e) ↦ rw e (
            page-Reads index count _ (omega arith) (omega (arith, length-take {A = ℕ} max_chars []))
              later)
        | inr (inr e) ↦ rw e ((refl, index, omega arith, e), refl)
      ]
