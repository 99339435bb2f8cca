-- ===== src/Api/Cases/Ownership.antt =====
-- Whose case a route finds.
use counselready.Common.{
  All, ℕ, Bool, ◌&&◌, Option, none, some, List, [], ◌∷◌, ◌≡◌, inl, inr, refl, sym, ap, ◌∙◌, subst,
  arith, Option-cases, map, length,
}
use counselready.Common.Equality.{◌==◌, nat_eq}
use counselready.Common.Table.{find_row, where_rows}
use counselready.Effects.Action.{gets, pure, or_raise, ◌>>◌, Action, Result, ok, err, ◌>>=◌}
use counselready.Effects.Action.Laws.{>>=-ok, >>=-err}
use counselready.Models.Accounts.{UserAccount}
use counselready.Models.Cases.{document_read, pages, case_read, document_list, documents, Case}
use counselready.Models.Documents.{DocumentPage, Passage, Document}
use counselready.Models.Database.{Database}
use counselready.Api.Cases.{
  page_response, pages_of, passage_response, read_document, case_response, document_response, audit,
  case_not_found, document_not_found, is_owned_case, owned_case, owned_document, is_document_of,
  documents_of, list_cases, list_documents, read_case,
}
use counselready.Common.Sort.{sort_by-All, sort_by, by_key}
use counselready.Effects.Exceptions.{Exn}

abbrev pub own_case : ℕ → UserAccount → Database → Option Case
own_case i account db = find_row (is_owned_case i account) db.legal_case

pub owned_case-found :
    (i : ℕ) (account : UserAccount) (db : Database) {c : Case}
    → own_case i account db ≡ some c
    → owned_case i account db ≡ (ok c, db)
unfolding owned_case
owned_case-found i account db found = rw (found, owned_case) refl

pub owned_case-missing :
    (i : ℕ) (account : UserAccount) (db : Database)
    → own_case i account db ≡ none
    → owned_case i account db ≡ (err case_not_found, db)
unfolding owned_case
owned_case-missing i account db missing = rw (missing, owned_case) refl

-- A rule for what follows `owned_case`: it runs on a case of the account, or not at all.
pub owned_case-then :
    {B : Type 0} (P : Result B × Database → Type 0) (i : ℕ) (account : UserAccount)
    (k : Case → Action Database B) (db : Database)
    → ((c : Case) → own_case i account db ≡ some c → P (k c db))
    → P (err case_not_found, db)
    → P ((owned_case i account >>= k) db)
owned_case-then P i account k db onward stop = elim (Option-cases (own_case i account db)) [
  | inl missing ↦
      subst P (sym (>>=-err (owned_case i account) k db (owned_case-missing i account db missing)))
        stop
  | inr (c, found) ↦
      subst P (sym (>>=-ok (owned_case i account) k db (owned_case-found i account db found)))
        (onward c found)
]

-- What a query of two conditions finds is found among the rows of one.
find_row-where :
    {R : Type 0} (p q : R → Bool) (rs : List R)
    → find_row (λ r. p r && q r) rs ≡ find_row p (where_rows q rs)
unfolding find_row where_rows
find_row-where p q [] = refl
find_row-where p q (r ∷ rs) = ground (arith, find_row-where p q rs)

abbrev pub own_cases : UserAccount → Database → List Case
own_cases account db = where_rows (λ c. c.owner_id == account.id) db.legal_case

abbrev pub documents_in : ℕ → Database → List Document
documents_in i db = where_rows (λ d. d.case_id == i) db.document

module _ (account : UserAccount) (db other : Database)
    (same : own_cases account db ≡ own_cases account other) where
  own_case-depends : (i : ℕ) → own_case i account db ≡ own_case i account other
  own_case-depends i =
      find_row-where (λ c. c.id == i) (λ c. c.owner_id == account.id) db.legal_case
      ∙ ap (find_row (λ c. c.id == i)) same
      ∙ sym (find_row-where (λ c. c.id == i) (λ c. c.owner_id == account.id) other.legal_case)

  -- A route on a case depends on it alone, if what follows does.
  owned_case-then_depends :
      {B : Type 0} (i : ℕ) (k : Case → Action Database B)
      → ((c : Case) → own_case i account db ≡ some c → (k c db).0 ≡ (k c other).0)
      → ((owned_case i account >>= k) db).0 ≡ ((owned_case i account >>= k) other).0
  owned_case-then_depends i k onward = elim (Option-cases (own_case i account db)) [
    | inl missing ↦
        ap (λ x. x.0)
          (>>=-err (owned_case i account) k db (owned_case-missing i account db missing))
        ∙ sym (
            ap (λ x. x.0)
              (>>=-err (owned_case i account) k other
                (owned_case-missing i account other (sym (own_case-depends i) ∙ missing))))
    | inr (c, found) ↦
        ap (λ x. x.0) (>>=-ok (owned_case i account) k db (owned_case-found i account db found))
        ∙ onward c found
        ∙ sym (
            ap (λ x. x.0)
              (>>=-ok (owned_case i account) k other
                (owned_case-found i account other (sym (own_case-depends i) ∙ found))))
  ]

abbrev pub pages_in : ℕ → Database → List DocumentPage
pages_in i db = where_rows (λ p. p.document_id == i) db.document_page

abbrev pub passages_in : ℕ → Database → List Passage
passages_in i db = where_rows (λ p. p.page_id == i) db.passage

-- Two databases hold the same pages of a document, and the same passages on them.
abbrev pub SamePages : Database → Database → ℕ → Type 0
SamePages db other document_id =
    (pages_in document_id db ≡ pages_in document_id other)
    × All (λ p. passages_in p.id db ≡ passages_in p.id other) (pages_in document_id db)

page_responses-same :
    (db other : Database) (ps : List DocumentPage)
    → All (λ p. passages_in p.id db ≡ passages_in p.id other) ps
    → map (page_response db) ps ≡ map (page_response other) ps
page_responses-same db other [] h = refl
page_responses-same db other (p ∷ ps) (here, there) =
    let own : page_response db p ≡ page_response other p =
      ap
        (λ qs. record {
          page_number = p.page_number;
          text = p.text;
          ocr_confidence = p.ocr_confidence;
          passages = map passage_response (sort_by (by_key (λ q. q.start_offset)) qs);
        })
        here in
    ap (λ r. r ∷ map (page_response db) ps) own
    ∙ ap (λ rs. page_response other p ∷ rs) (page_responses-same db other ps there)

-- What a read of a document returns of its pages.
pages-depend :
    (db other : Database) (document_id : ℕ)
    → SamePages db other document_id
    → map (page_response db) (pages_of document_id db)
      ≡ map (page_response other) (pages_of document_id other)
pages-depend db other document_id (same, inside) =
    page_responses-same db other (pages_of document_id db) (
      sort_by-All (by_key (λ p. p.page_number)) (λ p. passages_in p.id db ≡ passages_in p.id other)
        (pages_in document_id db) inside)
    ∙ ap (λ ps. map (page_response other) (sort_by (by_key (λ p. p.page_number)) ps)) same

-- The document that a case of the account has under an id.
abbrev pub own_document : ℕ → Case → Database → Option Document
own_document document_id case db = find_row (is_document_of document_id case) db.document

-- The three outcomes of the look-up of a document.
module _ (document_id i : ℕ) (account : UserAccount) (db : Database) where
  abbrev looked_up : Case → Action Database Document
  looked_up case = do
    document ← gets (own_document document_id case)
    or_raise document document_not_found

  owned_document-missing :
      own_case i account db ≡ none
      → owned_document document_id i account db ≡ (err case_not_found, db)
  unfolding owned_document
  owned_document-missing missing =
      >>=-err (owned_case i account) looked_up db (owned_case-missing i account db missing)

  owned_document-absent :
      {c : Case}
      → own_case i account db ≡ some c
      → own_document document_id c db ≡ none
      → owned_document document_id i account db ≡ (err document_not_found, db)
  unfolding owned_document
  owned_document-absent {c} found absent =
      >>=-ok (owned_case i account) looked_up db (owned_case-found i account db found)
      ∙ ap (λ o. or_raise o document_not_found db) absent

  owned_document-found :
      {c : Case} {d : Document}
      → own_case i account db ≡ some c
      → own_document document_id c db ≡ some d
      → owned_document document_id i account db ≡ (ok d, db)
  unfolding owned_document
  owned_document-found {c} found held =
      >>=-ok (owned_case i account) looked_up db (owned_case-found i account db found)
      ∙ ap (λ o. or_raise o document_not_found db) held

-- What follows a call that leaves either database as it is and returns the same of both.
module _ {A B : Type 0} (m : Action Database A) (k : A → Action Database B)
    (db other : Database) where
  refused-same :
      {e : Exn}
      → m db ≡ (err e, db)
      → m other ≡ (err e, other)
      → ((m >>= k) db).0 ≡ ((m >>= k) other).0
  refused-same h h' = ap (λ x. x.0) (>>=-err m k db h) ∙ sym (ap (λ x. x.0) (>>=-err m k other h'))

  returned-same :
      {a : A}
      → m db ≡ (ok a, db)
      → m other ≡ (ok a, other)
      → (k a db).0 ≡ (k a other).0
      → ((m >>= k) db).0 ≡ ((m >>= k) other).0
  returned-same h h' on =
      ap (λ x. x.0) (>>=-ok m k db h) ∙ on ∙ sym (ap (λ x. x.0) (>>=-ok m k other h'))

module _ (account : UserAccount) (db other : Database) (i document_id : ℕ)
    (same : own_cases account db ≡ own_cases account other)
    (inside : (c : Case)
      → own_case i account db ≡ some c
      → documents_in c.id db ≡ documents_in c.id other)
    (written : (c : Case) (d : Document)
      → own_case i account db ≡ some c
      → own_document document_id c db ≡ some d
      → SamePages db other d.id) where
  own_document-depends :
      (c : Case)
      → own_case i account db ≡ some c
      → own_document document_id c db ≡ own_document document_id c other
  own_document-depends c found =
      find_row-where (λ d. d.id == document_id) (λ d. d.case_id == c.id) db.document
      ∙ ap (find_row (λ d. d.id == document_id)) (inside c found)
      ∙ sym (find_row-where (λ d. d.id == document_id) (λ d. d.case_id == c.id) other.document)

  -- A route on a document depends on it alone, if what follows does.
  owned_document-then_depends :
      {B : Type 0} (k : Document → Action Database B)
      → ((d : Document) → SamePages db other d.id → (k d db).0 ≡ (k d other).0)
      → ((owned_document document_id i account >>= k) db).0
        ≡ ((owned_document document_id i account >>= k) other).0
  owned_document-then_depends k onward = elim (Option-cases (own_case i account db)) [
    | inl missing ↦
        refused-same (owned_document document_id i account) k db other
          (owned_document-missing document_id i account db missing)
          (owned_document-missing document_id i account other
            (sym (own_case-depends account db other same i) ∙ missing))
    | inr (c, found) ↦
        let found' = sym (own_case-depends account db other same i) ∙ found in
        elim (Option-cases (own_document document_id c db)) [
          | inl absent ↦
              refused-same (owned_document document_id i account) k db other
                (owned_document-absent document_id i account db found absent)
                (owned_document-absent document_id i account other found'
                  (sym (own_document-depends c found) ∙ absent))
          | inr (d, held) ↦
              returned-same (owned_document document_id i account) k db other
                (owned_document-found document_id i account db found held)
                (owned_document-found document_id i account other found'
                  (sym (own_document-depends c found) ∙ held))
                (onward d (written c d found held))
        ]
  ]

-- What an account is told of cases and documents depends only on its own cases, on the documents in
-- them, and, where it reads a document that it has, on the pages of that document and the passages on
-- these: two databases that agree on these answer alike, whatever else they hold.
pub answers_depend_on_own_rows :
    (account : UserAccount) (db other : Database) (i document_id : ℕ)
    → own_cases account db ≡ own_cases account other
    → ((c : Case) → own_case i account db ≡ some c → documents_in c.id db ≡ documents_in c.id other)
    → ((c : Case) (d : Document)
        → own_case i account db ≡ some c
        → own_document document_id c db ≡ some d
        → SamePages db other d.id)
    → ((list_cases account db).0 ≡ (list_cases account other).0)
      × ((read_case i account db).0 ≡ (read_case i account other).0)
      × ((list_documents i account db).0 ≡ (list_documents i account other).0)
      × ((read_document document_id i account db).0 ≡ (read_document document_id i account other).0)
unfolding list_cases read_case list_documents read_document audit
answers_depend_on_own_rows account db other i document_id same inside written = (
  rw same refl,
  owned_case-then_depends account db other same i
      (λ case. do audit account (some case.id) case_read none; pure (case_response case))
      (λ c found. refl),
  owned_case-then_depends account db other same i
      (λ case. do
        found ← gets (documents_of case.id)
        audit account (some case.id) document_list (some ((documents, length found) ∷ []))
        pure (map document_response found))
      (λ c found.
        ap (λ ds. ok (map document_response (sort_by (by_key (λ d. d.created_at)) ds)))
          (inside c found)),
  owned_document-then_depends account db other i document_id same inside written
      (λ document. do
        found ← gets (λ db. map (page_response db) (pages_of document.id db))
        audit account (some document.case_id) document_read (some ((pages, length found) ∷ []))
        pure (record { document = document_response document; pages = found }))
      (λ d same.
        ap (λ ps. ok (record { document = document_response d; pages = ps }))
          (pages-depend db other d.id same)),
)
