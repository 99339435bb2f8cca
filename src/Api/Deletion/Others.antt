-- ===== src/Api/Deletion/Others.antt =====
-- What a deleted account leaves of what the others are told.
use counselready.Common.{
  All-map, ℕ, true, false, ◌&&◌, some, List, [], ◌∷◌, ◌≡◌, refl, sym, subst, arith, inl, inr,
  Bool-cases,
}
use counselready.Common.Equality.{◌==◌, nat_eq, ==-sound}
use counselready.Common.Table.{any_row, find_row_sound}
use counselready.Models.Accounts.{UserAccount}
use counselready.Models.Cases.{Case}
use counselready.Models.Database.{Database}
use counselready.Models.Cascade.{
  gone_document, gone_page, page_goes, passage_goes, removed, delete_user, gone_account, gone_case,
  case_goes, document_goes,
}
use counselready.Models.Cascade.Others.{
  where_rows-stay, distinct, where_rows-delete_rows, found-stays,
}
use counselready.Api.Cases.{
  read_document, is_document_of, is_owned_case, list_cases, read_case, list_documents,
}
use counselready.Api.Cases.Ownership.{
  own_document, pages_in, passages_in, SamePages, own_case, own_cases, documents_in,
  answers_depend_on_own_rows,
}
use counselready.Models.Documents.{Document}

-- Only the deleted id goes.
any_row-other :
    {P : Type 0} (id : P → ℕ) (i j : ℕ) (ps : List P)
    → (i == j) ≡ false
    → any_row (λ p. (id p == i) && (id p == j)) ps ≡ false
unfolding any_row
any_row-other id i j [] apart = refl
any_row-other id i j (p ∷ ps) apart = elim (Bool-cases (id p == i)) [
  | inl same ↦
      let other = subst (λ k. (k == j) ≡ false) (sym (==-sound (id p) i same)) apart in
      rw (other, same) (any_row-other id i j ps apart)
  | inr differs ↦ rw differs (any_row-other id i j ps apart)
]

module _ (account : UserAccount) (user_id : ℕ) (db : Database)
    (apart : (account.id == user_id) ≡ false) where
  own_cases-kept : own_cases account db ≡ own_cases account (delete_user user_id db)
  unfolding delete_user removed
  own_cases-kept = sym (
      where_rows-delete_rows (λ c. c.owner_id == account.id) (case_goes user_id db) db.legal_case
        (λ c own.
          subst (λ i. gone_account user_id db i ≡ false) (sym (==-sound c.owner_id account.id own))
            (any_row-other (λ u. u.id) account.id user_id db.user_account apart)))

  own_case-kept :
      (i : ℕ) {c : Case}
      → distinct (λ c. c.id) db.legal_case ≡ true
      → own_case i account db ≡ some c
      → gone_case user_id db c.id ≡ false
  unfolding removed
  own_case-kept i {c} unique found =
      let own : (is_owned_case i account c) ≡ true =
        find_row_sound (is_owned_case i account) db.legal_case {r = c} found in
      let mine : (c.owner_id == account.id) ≡ true = ground (arith) in
      found-stays (λ c. c.id) (is_owned_case i account) (case_goes user_id db) db.legal_case unique
        found
        (subst (λ i. gone_account user_id db i ≡ false) (sym (==-sound c.owner_id account.id mine))
          (any_row-other (λ u. u.id) account.id user_id db.user_account apart))

  documents_in-kept :
      (i : ℕ)
      → gone_case user_id db i ≡ false
      → documents_in i db ≡ documents_in i (delete_user user_id db)
  unfolding delete_user
  documents_in-kept i kept = sym (
      where_rows-delete_rows (λ d. d.case_id == i) (document_goes user_id db) db.document
        (λ d own.
          subst (λ j. gone_case user_id db j ≡ false) (sym (==-sound d.case_id i own)) kept))

  -- A document of a case that stays.
  own_document-kept :
      (document_id : ℕ) (c : Case) {d : Document}
      → distinct (λ d. d.id) db.document ≡ true
      → gone_case user_id db c.id ≡ false
      → own_document document_id c db ≡ some d
      → gone_document user_id db d.id ≡ false
  unfolding removed
  own_document-kept document_id c {d} unique kept held =
      let own : is_document_of document_id c d ≡ true =
        find_row_sound (is_document_of document_id c) db.document {r = d} held in
      let inside : (d.case_id == c.id) ≡ true = ground (arith) in
      found-stays (λ d. d.id) (is_document_of document_id c) (document_goes user_id db) db.document
        unique held
        (subst (λ i. gone_case user_id db i ≡ false) (sym (==-sound d.case_id c.id inside)) kept)

  pages_in-kept :
      (i : ℕ)
      → gone_document user_id db i ≡ false
      → pages_in i db ≡ pages_in i (delete_user user_id db)
  unfolding delete_user
  pages_in-kept i kept = sym (
      where_rows-delete_rows (λ p. p.document_id == i) (page_goes user_id db) db.document_page
        (λ p own.
          subst (λ j. gone_document user_id db j ≡ false) (sym (==-sound p.document_id i own))
            kept))

  passages_in-kept :
      (i : ℕ)
      → gone_page user_id db i ≡ false
      → passages_in i db ≡ passages_in i (delete_user user_id db)
  unfolding delete_user
  passages_in-kept i kept = sym (
      where_rows-delete_rows (λ q. q.page_id == i) (passage_goes user_id db) db.passage
        (λ q own.
          subst (λ j. gone_page user_id db j ≡ false) (sym (==-sound q.page_id i own)) kept))

  -- A document that stays keeps its pages and the passages on them.
  kept-SamePages :
      (i : ℕ)
      → distinct (λ p. p.id) db.document_page ≡ true
      → gone_document user_id db i ≡ false
      → SamePages db (delete_user user_id db) i
  unfolding removed
  kept-SamePages i unique kept = (
    pages_in-kept i kept,
    All-map _ (λ p. passages_in p.id db ≡ passages_in p.id (delete_user user_id db))
        (λ p stays. passages_in-kept p.id stays) (pages_in i db)
        (where_rows-stay (λ p. p.id) (λ p. p.document_id == i) (page_goes user_id db)
          db.document_page unique
          (λ p own.
            subst (λ j. gone_document user_id db j ≡ false) (sym (==-sound p.document_id i own))
              kept)),
  )

-- The deletion of an account changes nothing that an account of another id is told of its cases, of
-- its documents, and of their pages and passages, where no two cases, no two documents and no two pages
-- have one id.
pub delete_user_unseen :
    (account : UserAccount) (user_id : ℕ) (db : Database) (i document_id : ℕ)
    → (account.id == user_id) ≡ false
    → distinct (λ c. c.id) db.legal_case ≡ true
    → distinct (λ d. d.id) db.document ≡ true
    → distinct (λ p. p.id) db.document_page ≡ true
    → let db' = delete_user user_id db in
      ((list_cases account db).0 ≡ (list_cases account db').0)
      × ((read_case i account db).0 ≡ (read_case i account db').0)
      × ((list_documents i account db).0 ≡ (list_documents i account db').0)
      × ((read_document document_id i account db).0 ≡ (read_document document_id i account db').0)
delete_user_unseen account user_id db i document_id apart unique unique_documents unique_pages =
    answers_depend_on_own_rows account db (delete_user user_id db) i document_id
      (own_cases-kept account user_id db apart)
      (λ c found.
        documents_in-kept account user_id db apart c.id
          (own_case-kept account user_id db apart i unique found))
      (λ c d found held. kept-SamePages account user_id db apart d.id unique_pages (
        own_document-kept account user_id db apart document_id c unique_documents
          (own_case-kept account user_id db apart i unique found) held))
