-- ===== src/Models/Cascade/Growth/Tables.antt =====
-- Each table with more rows, whose own keys hold.
use counselready.Common.{true, some, List, ◌++◌, ◌≡◌}
use counselready.Common.Equality.{nat_eq}
use counselready.Models.Cases.{Case, CaseAuditEvent}
use counselready.Models.Documents.{Document, DocumentPage}
use counselready.Models.Timeline.{CaseEvent, CaseEventNote}
use counselready.Models.Database.{Database}
use counselready.Models.Cascade.{refers, ForeignKeys}
use counselready.Models.Cascade.Growth.{refers-append, refers-more}

module _ (db : Database) (keys : ForeignKeys db) where
  pub add_cases-ForeignKeys :
      (rows : List Case)
      → refers (λ c. some c.owner_id) (λ u. u.id) rows db.user_account ≡ true
      → ForeignKeys (record db { legal_case = db.legal_case ++ rows })
  add_cases-ForeignKeys rows new_owners =
      let (
        sessions, tokens, attempts, mfas, codes, passkeys, challenges, owners, parties, actors,
        trail, documents, pages, passages, fact_docs, fact_passages, events, cited, recorded,
        asserted, about, notes, authors,
      ) =
        keys in
      (
        sessions,
        tokens,
        attempts,
        mfas,
        codes,
        passkeys,
        challenges,
        refers-append _ _ _ _ _ owners new_owners,
        refers-more _ _ _ _ _ parties,
        actors,
        refers-more _ _ _ _ _ trail,
        refers-more _ _ _ _ _ documents,
        pages,
        passages,
        fact_docs,
        fact_passages,
        refers-more _ _ _ _ _ events,
        cited,
        recorded,
        asserted,
        about,
        notes,
        authors,
      )

  pub add_trail-ForeignKeys :
      (rows : List CaseAuditEvent)
      → refers (λ e. e.actor_user_id) (λ u. u.id) rows db.user_account ≡ true
      → refers (λ e. e.case_id) (λ c. c.id) rows db.legal_case ≡ true
      → ForeignKeys (record db { case_audit_event = db.case_audit_event ++ rows })
  add_trail-ForeignKeys rows new_actors new_trail =
      let (
        sessions, tokens, attempts, mfas, codes, passkeys, challenges, owners, parties, actors,
        trail, documents, pages, passages, fact_docs, fact_passages, events, cited, recorded,
        asserted, about, notes, authors,
      ) =
        keys in
      (
        sessions,
        tokens,
        attempts,
        mfas,
        codes,
        passkeys,
        challenges,
        owners,
        parties,
        refers-append _ _ _ _ _ actors new_actors,
        refers-append _ _ _ _ _ trail new_trail,
        documents,
        pages,
        passages,
        fact_docs,
        fact_passages,
        events,
        cited,
        recorded,
        asserted,
        about,
        notes,
        authors,
      )

  pub add_documents-ForeignKeys :
      (rows : List Document)
      → refers (λ d. some d.case_id) (λ c. c.id) rows db.legal_case ≡ true
      → ForeignKeys (record db { document = db.document ++ rows })
  add_documents-ForeignKeys rows new_documents =
      let (
        sessions, tokens, attempts, mfas, codes, passkeys, challenges, owners, parties, actors,
        trail, documents, pages, passages, fact_docs, fact_passages, events, cited, recorded,
        asserted, about, notes, authors,
      ) =
        keys in
      (
        sessions,
        tokens,
        attempts,
        mfas,
        codes,
        passkeys,
        challenges,
        owners,
        parties,
        actors,
        trail,
        refers-append _ _ _ _ _ documents new_documents,
        refers-more _ _ _ _ _ pages,
        passages,
        refers-more _ _ _ _ _ fact_docs,
        fact_passages,
        events,
        cited,
        recorded,
        asserted,
        about,
        notes,
        authors,
      )

  pub add_pages-ForeignKeys :
      (rows : List DocumentPage)
      → refers (λ p. some p.document_id) (λ d. d.id) rows db.document ≡ true
      → ForeignKeys (record db { document_page = db.document_page ++ rows })
  add_pages-ForeignKeys rows new_pages =
      let (
        sessions, tokens, attempts, mfas, codes, passkeys, challenges, owners, parties, actors,
        trail, documents, pages, passages, fact_docs, fact_passages, events, cited, recorded,
        asserted, about, notes, authors,
      ) =
        keys in
      (
        sessions,
        tokens,
        attempts,
        mfas,
        codes,
        passkeys,
        challenges,
        owners,
        parties,
        actors,
        trail,
        documents,
        refers-append _ _ _ _ _ pages new_pages,
        refers-more _ _ _ _ _ passages,
        fact_docs,
        fact_passages,
        events,
        cited,
        recorded,
        asserted,
        about,
        notes,
        authors,
      )

  pub add_events-ForeignKeys :
      (rows : List CaseEvent)
      → refers (λ e. some e.case_id) (λ c. c.id) rows db.legal_case ≡ true
      → refers (λ e. e.passage_id) (λ p. p.id) rows db.passage ≡ true
      → refers (λ e. e.recorded_by_user_id) (λ u. u.id) rows db.user_account ≡ true
      → refers (λ e. e.asserted_by_party_id) (λ p. p.id) rows db.party ≡ true
      → refers (λ e. e.about_party_id) (λ p. p.id) rows db.party ≡ true
      → ForeignKeys (record db { case_event = db.case_event ++ rows })
  add_events-ForeignKeys rows new_events new_cited new_recorded new_asserted new_about =
      let (
        sessions, tokens, attempts, mfas, codes, passkeys, challenges, owners, parties, actors,
        trail, documents, pages, passages, fact_docs, fact_passages, events, cited, recorded,
        asserted, about, notes, authors,
      ) =
        keys in
      (
        sessions,
        tokens,
        attempts,
        mfas,
        codes,
        passkeys,
        challenges,
        owners,
        parties,
        actors,
        trail,
        documents,
        pages,
        passages,
        fact_docs,
        fact_passages,
        refers-append _ _ _ _ _ events new_events,
        refers-append _ _ _ _ _ cited new_cited,
        refers-append _ _ _ _ _ recorded new_recorded,
        refers-append _ _ _ _ _ asserted new_asserted,
        refers-append _ _ _ _ _ about new_about,
        refers-more _ _ _ _ _ notes,
        authors,
      )

  pub add_notes-ForeignKeys :
      (rows : List CaseEventNote)
      → refers (λ n. some n.event_id) (λ e. e.id) rows db.case_event ≡ true
      → refers (λ n. some n.author_user_id) (λ u. u.id) rows db.user_account ≡ true
      → ForeignKeys (record db { case_event_note = db.case_event_note ++ rows })
  add_notes-ForeignKeys rows new_notes new_authors =
      let (
        sessions, tokens, attempts, mfas, codes, passkeys, challenges, owners, parties, actors,
        trail, documents, pages, passages, fact_docs, fact_passages, events, cited, recorded,
        asserted, about, notes, authors,
      ) =
        keys in
      (
        sessions,
        tokens,
        attempts,
        mfas,
        codes,
        passkeys,
        challenges,
        owners,
        parties,
        actors,
        trail,
        documents,
        pages,
        passages,
        fact_docs,
        fact_passages,
        events,
        cited,
        recorded,
        asserted,
        about,
        refers-append _ _ _ _ _ notes new_notes,
        refers-append _ _ _ _ _ authors new_authors,
      )
