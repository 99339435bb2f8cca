-- ===== src/Models/Timeline.antt =====
-- Timeline entries and the notes beside them: backend/app/models/event.py, with the two CHECK
-- constraints of `case_event` as tests on a row.
use counselready.Common.{ℕ, Bool, Option, ◌&&◌, is_some, is_none}
use counselready.Common.Text.{Text}

pub data EventKind : Type 0 where
  procedural alleged : EventKind

pub data EventProvenance : Type 0 where
  document_derived user_asserted : EventProvenance

pub data DatePrecision : Type 0 where
  exact day month year : DatePrecision

pub record CaseEvent : Type 0 where
  pub id : ℕ
  pub case_id : ℕ
  pub kind : EventKind
  pub provenance : EventProvenance
  pub passage_id : Option ℕ
  pub recorded_by_user_id : Option ℕ
  pub occurred_at : ℕ
  pub date_precision : DatePrecision
  pub summary : Text
  pub asserted_by_party_id : Option ℕ
  pub about_party_id : Option ℕ
  pub created_at : ℕ

pub record CaseEventNote : Type 0 where
  pub id : ℕ
  pub event_id : ℕ
  pub author_user_id : ℕ
  pub body : Text
  pub created_at : ℕ

-- `documentary_events_cite_a_passage`
unfoldable pub cites_a_passage : EventProvenance → Option ℕ → Bool
cites_a_passage document_derived passage_id = is_some passage_id
cites_a_passage user_asserted passage_id = is_none passage_id

-- `asserted_events_name_their_author`
unfoldable pub names_its_author : EventProvenance → Option ℕ → Bool
names_its_author user_asserted recorded_by_user_id = is_some recorded_by_user_id
names_its_author document_derived recorded_by_user_id = is_none recorded_by_user_id

-- Both CHECK constraints of the table.
unfoldable pub event_checks : CaseEvent → Bool
unfolding cites_a_passage names_its_author
event_checks e =
    cites_a_passage e.provenance e.passage_id && names_its_author e.provenance e.recorded_by_user_id
