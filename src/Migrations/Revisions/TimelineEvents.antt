-- ===== src/Migrations/Revisions/TimelineEvents.antt =====
-- Revision 8a1be962755b: timeline events with provenance (backend/alembic/versions/8a1be962755b_timeline_events_with_provenance.py).
use counselready.Common.{String, List, [], ◌∷◌, ◌++◌, map}
use mathlib.Core.List.{reverse}
use counselready.Migrations.Schema.{
  enumeration, uuid, text, timestamp_tz, cascade, set_null, check, primary_key, Table, Enum,
}
use counselready.Migrations.Operations.{
  Op, create_enum, drop_enum, create_table, drop_table, drop_index,
}
use counselready.Migrations.Revisions.Columns.{
  required, optional, id_and_timestamps, reference, plain_index,
}

abbrev pub event_kind : Enum
event_kind = record { name = "event_kind"; values = ("procedural" ∷ "alleged" ∷ []) }

abbrev pub event_provenance : Enum
event_provenance = record {
  name = "event_provenance";
  values = ("document_derived" ∷ "user_asserted" ∷ []);
}

abbrev pub date_precision : Enum
date_precision = record {
  name = "date_precision";
  values = ("exact" ∷ "day" ∷ "month" ∷ "year" ∷ []);
}

abbrev pub all_enums : List Enum
all_enums = event_kind ∷ event_provenance ∷ date_precision ∷ []

abbrev pub cites_a_passage_check : String
cites_a_passage_check =
    "(provenance = 'document_derived' AND passage_id IS NOT NULL) OR (provenance = 'user_asserted' AND passage_id IS NULL)"

abbrev pub names_its_author_check : String
names_its_author_check =
    "(provenance = 'user_asserted' AND recorded_by_user_id IS NOT NULL) OR (provenance = 'document_derived' AND recorded_by_user_id IS NULL)"

abbrev pub case_event_table : Table
case_event_table = record {
  name = "case_event";
  columns =
      (required "case_id" uuid)
      ∷ (required "kind" (enumeration "event_kind"))
      ∷ (required "provenance" (enumeration "event_provenance"))
      ∷ (optional "passage_id" uuid)
      ∷ (optional "recorded_by_user_id" uuid)
      ∷ (required "occurred_at" timestamp_tz)
      ∷ (required "date_precision" (enumeration "date_precision"))
      ∷ (required "summary" text)
      ∷ (optional "asserted_by_party_id" uuid)
      ∷ (optional "about_party_id" uuid)
      ∷ id_and_timestamps;
  constraints =
      (check "ck_case_event_documentary_events_cite_a_passage" cites_a_passage_check)
      ∷ (check "ck_case_event_asserted_events_name_their_author" names_its_author_check)
      ∷ (reference "fk_case_event_about_party_id_party" "about_party_id" "party" set_null)
      ∷ (reference "fk_case_event_asserted_by_party_id_party" "asserted_by_party_id" "party"
          set_null)
      ∷ (reference "fk_case_event_case_id_case" "case_id" "case" cascade)
      ∷ (reference "fk_case_event_passage_id_passage" "passage_id" "passage" cascade)
      ∷ (reference "fk_case_event_recorded_by_user_id_user_account" "recorded_by_user_id"
          "user_account" cascade)
      ∷ (primary_key "pk_case_event" ("id" ∷ []))
      ∷ [];
}

abbrev pub upgrade : List Op
upgrade =
    map create_enum all_enums
    ++ (create_table case_event_table
        ∷ plain_index "ix_case_event_case_id" "case_event" ("case_id" ∷ [])
        ∷ plain_index "ix_case_event_case_id_occurred_at" "case_event"
            ("case_id" ∷ "occurred_at" ∷ [])
        ∷ plain_index "ix_case_event_passage_id" "case_event" ("passage_id" ∷ [])
        ∷ [])

abbrev pub downgrade : List Op
downgrade =
    (drop_index "ix_case_event_passage_id" "case_event"
      ∷ drop_index "ix_case_event_case_id_occurred_at" "case_event"
      ∷ drop_index "ix_case_event_case_id" "case_event"
      ∷ drop_table "case_event"
      ∷ [])
    ++ map (λ e. drop_enum e.name) (reverse all_enums)
