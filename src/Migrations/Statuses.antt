-- ===== src/Migrations/Statuses.antt =====
-- The downgrades that lose values of an enum type, on whatever rows the tables hold
-- (backend/alembic/versions: c3f07a19b842, 4b7c1d90e2aa).
use counselready.Common.{
  ◌++◌, ◌≡◌, refl, arith, String, true, false, ◌&&◌, none, some, List, [], ◌∷◌, map,
}
use counselready.Common.Table.{any_row, delete_rows}
use text.Mathlib.Text.{◌==◌}
use text.Mathlib.TextEquality.{eq_iff}
use counselready.Migrations.Schema.{Row, Database}
use counselready.Migrations.Operations.{
  override, contains, has_table, table_named, has_column, Op, delete_where,
}
use counselready.Migrations.Apply.{
  define_type, replace_value, apply_update, apply_delete, value_of, is_among,
}
use counselready.Migrations.Run.{apply, run}
use counselready.Migrations.WellFormed.{IsWellFormed, any_row_mono}
use counselready.Migrations.Rebuild.{rebuild, run-rebuild, sole_user}
use counselready.Migrations.Values.{misfits, replaced_fit, kept_fit}
use counselready.Migrations.Revisions.NeedsOcr
use counselready.Migrations.Revisions.TimelineNotes

-- The statuses of a document from revision c3f07a19b842 on.
abbrev pub with_needs_ocr : List String
with_needs_ocr = "pending" ∷ "processing" ∷ "needs_ocr" ∷ "complete" ∷ "failed" ∷ []

unfoldable pub with_rows : String → List Row → Database → Database
with_rows n rs d = record d { rows = override n rs d.rows }

-- Other rows of a table that there is.
pub with_rows-IsWellFormed :
    (n : String) (rs : List Row) (d : Database)
    → IsWellFormed d
    → has_table d n ≡ true
    → IsWellFormed (with_rows n rs d)
unfolding with_rows has_table override table_named
with_rows-IsWellFormed n rs d wf there = record {
  keys_lead = wf.keys_lead;
  keys_own = wf.keys_own;
  types_defined = wf.types_defined;
  indexes_stand = wf.indexes_stand;
  rows_stand = λ m h. ground (arith, wf.rows_stand m, eq_iff n m);
}

pub sole_user_there :
    (n c e : String) (d : Database) → sole_user n c e d ≡ true → has_table d n ≡ true
unfolding sole_user has_table
sole_user_there n c e d h =
    any_row_mono (λ t. table_named n t && has_column c t) (table_named n) d.tables
      (λ t k. ground arith) (ground arith)

status_stays :
    (v : String)
    → contains with_needs_ocr v ≡ true
    → ("needs_ocr" == v) ≡ false
    → contains NeedsOcr.without_needs_ocr v ≡ true
unfolding contains any_row
status_stays v h k = ground arith

-- On a well-formed schema in which only `document.ocr_status` has the type `ocr_status`, of its five
-- values, and no type has the name of its temporary twin, and whatever documents there are with
-- statuses among the five, the downgrade of revision c3f07a19b842 succeeds: the type is left with the
-- other four, and exactly the documents with `needs_ocr` become `pending`.
pub needs_ocr_downgraded :
    (d : Database)
    → IsWellFormed d
    → sole_user "document" "ocr_status" "ocr_status" d ≡ true
    → d.enums "ocr_status" ≡ some with_needs_ocr
    → d.enums "ocr_status_old" ≡ none
    → misfits with_needs_ocr "ocr_status" (d.rows "document") ≡ false
    → run NeedsOcr.downgrade d
      ≡ some (
          define_type "ocr_status" NeedsOcr.without_needs_ocr (
            with_rows "document"
              (map (replace_value "ocr_status" "pending" "needs_ocr") (d.rows "document"))
              d))
unfolding run apply apply_update with_rows
needs_ocr_downgraded d wf sole h h' fits =
    let there : any_row (λ t. table_named "document" t && has_column "ocr_status" t) d.tables
        ≡ true =
      unfold sole_user in ground arith in
    let changed = map (replace_value "ocr_status" "pending" "needs_ocr") (d.rows "document") in
    rw there (
      run-rebuild "document" "ocr_status" "ocr_status" "ocr_status_old" NeedsOcr.without_needs_ocr
        with_needs_ocr (with_rows "document" changed d)
        (with_rows-IsWellFormed "document" changed d wf
          (sole_user_there "document" "ocr_status" "ocr_status" d sole))
        (unfold sole_user in sole) h h'
        (unfold override misfits in
          replaced_fit "ocr_status" "pending" "needs_ocr" with_needs_ocr NeedsOcr.without_needs_ocr
            status_stays (unfold contains any_row in refl) (d.rows "document") fits))

-- The audit actions from revision 4b7c1d90e2aa on.
abbrev pub all_actions : List String
all_actions = TimelineNotes.previous_values ++ TimelineNotes.new_values

-- The statements of that downgrade after it has dropped the notes.
abbrev pub shrink_actions : List Op
shrink_actions =
    delete_where "case_audit_event" "action" TimelineNotes.new_values
    ∷ rebuild "case_audit_event" "action" "case_action" "case_action_old"
        TimelineNotes.previous_values

action_stays :
    (v : String)
    → contains all_actions v ≡ true
    → contains TimelineNotes.new_values v ≡ false
    → contains TimelineNotes.previous_values v ≡ true
unfolding contains any_row
action_stays v h k = ground arith

pub actions_shrunk :
    (d : Database)
    → IsWellFormed d
    → sole_user "case_audit_event" "action" "case_action" d ≡ true
    → d.enums "case_action" ≡ some all_actions
    → d.enums "case_action_old" ≡ none
    → misfits all_actions "action" (d.rows "case_audit_event") ≡ false
    → run shrink_actions d
      ≡ some (
          define_type "case_action" TimelineNotes.previous_values (
            with_rows "case_audit_event"
              (delete_rows
                (λ r. is_among TimelineNotes.new_values (value_of "action" r))
                (d.rows "case_audit_event"))
              d))
unfolding run apply apply_delete with_rows
actions_shrunk d wf sole h h' fits =
    let there : any_row (λ t. table_named "case_audit_event" t && has_column "action" t) d.tables
        ≡ true =
      unfold sole_user in ground arith in
    let kept =
      delete_rows (λ r. is_among TimelineNotes.new_values (value_of "action" r))
        (d.rows "case_audit_event") in
    rw there (
      run-rebuild "case_audit_event" "action" "case_action" "case_action_old"
        TimelineNotes.previous_values all_actions (with_rows "case_audit_event" kept d)
        (with_rows-IsWellFormed "case_audit_event" kept d wf
          (sole_user_there "case_audit_event" "action" "case_action" d sole))
        (unfold sole_user in sole) h h'
        (unfold override misfits in
          kept_fit "action" all_actions TimelineNotes.new_values TimelineNotes.previous_values
            action_stays (d.rows "case_audit_event") fits))
