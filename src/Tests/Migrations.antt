-- ===== src/Tests/Migrations.antt =====
-- The migrations (backend/alembic/versions) on databases with some rows.
use counselready.Common.{◌≡◌, refl, some, List, [], ◌∷◌}
use counselready.Common.Table.{any_row, delete_rows}
use counselready.Migrations.Schema.{Row, Database}
use counselready.Migrations.Operations.{
  contains, override, table_named, has_table, index_named, index_on, column_named, has_column,
  keeps_index, taken, clashes, targets, dangling, is_enumeration, typed, uses_type, type_undefined,
  untyped, on_column, misses, misplaced,
}
use counselready.Migrations.Apply.{
  is_used, define_type, forget_type, apply_create_type, apply_create_enum, apply_drop_type,
  apply_drop_enum, insert_after, placed, apply_add_value, apply_create_table, referred,
  apply_drop_table, covers, apply_create_index, apply_drop_index, alter_table, no_rows,
  append_column, with_column, apply_add_column, remove_column, forget_value, apply_drop_column,
  value_of, is_value, set_value, replace_value, apply_update, is_among, apply_delete,
}
use counselready.Migrations.Recast.{
  renamed, map_columns, apply_rename_type, uncastable, retyped, apply_alter_column_type,
}
use counselready.Migrations.Run.{apply, run}
use counselready.Migrations.Chain.{
  migrate, case_file, timeline_events, needs_ocr_status, accounts, mfa, audit_trail, passkeys,
  job_queue, timeline_notes, upgrade, downgrade, base,
}
use counselready.Migrations.Reversal.{spares, creates_new}
use counselready.Migrations.Rebuild.{stray, sole_user}
use counselready.Migrations.Values.{misfits}
use counselready.Migrations.Statuses.{with_rows, with_rows-IsWellFormed, needs_ocr_downgraded}
use counselready.Migrations.LostActions.{kept_actions, in_use, timeline_notes_downgraded}
use counselready.Tests.Chain.{found, migrated}
use counselready.Migrations.WellFormed.{IsWellFormed}
use counselready.Migrations.RoundTrip.{revisions_reversed, upgrade-IsWellFormed}
use counselready.Migrations.Revisions.NeedsOcr
use counselready.Migrations.Revisions.TimelineNotes

base-IsWellFormed : IsWellFormed base
unfolding any_row
base-IsWellFormed = record {
  keys_lead = refl;
  keys_own = refl;
  types_defined = refl;
  indexes_stand = refl;
  rows_stand = λ n h. refl;
}

abbrev first : Database
first = migrated (case_file ∷ [])

case_file_applies : run (upgrade case_file) base ≡ some first
unfolding any_row contains override table_named has_table index_named index_on column_named
    has_column keeps_index taken clashes targets dangling is_enumeration typed uses_type
    type_undefined untyped on_column misses misplaced is_used define_type forget_type
    apply_create_type apply_create_enum apply_drop_type apply_drop_enum insert_after placed
    apply_add_value apply_create_table referred apply_drop_table covers apply_create_index
    apply_drop_index alter_table no_rows append_column with_column apply_add_column remove_column
    forget_value apply_drop_column value_of is_value set_value replace_value apply_update is_among
    apply_delete renamed map_columns apply_rename_type uncastable retyped apply_alter_column_type
    apply run migrate spares creates_new stray sole_user misfits with_rows
case_file_applies = refl

abbrev scanned : Row
scanned = ("title", some "Motion") ∷ ("ocr_status", some "pending") ∷ []

abbrev filed : Database
filed = with_rows "document" (scanned ∷ []) first

first-IsWellFormed : IsWellFormed first
unfolding any_row contains override table_named has_table index_named index_on column_named
    has_column keeps_index taken clashes targets dangling is_enumeration typed uses_type
    type_undefined untyped on_column misses misplaced is_used define_type forget_type
    apply_create_type apply_create_enum apply_drop_type apply_drop_enum insert_after placed
    apply_add_value apply_create_table referred apply_drop_table covers apply_create_index
    apply_drop_index alter_table no_rows append_column with_column apply_add_column remove_column
    forget_value apply_drop_column value_of is_value set_value replace_value apply_update is_among
    apply_delete renamed map_columns apply_rename_type uncastable retyped apply_alter_column_type
    apply run migrate spares creates_new stray sole_user misfits with_rows
first-IsWellFormed =
    upgrade-IsWellFormed case_file base first base-IsWellFormed refl case_file_applies

filed-IsWellFormed : IsWellFormed filed
unfolding any_row contains override table_named has_table index_named index_on column_named
    has_column keeps_index taken clashes targets dangling is_enumeration typed uses_type
    type_undefined untyped on_column misses misplaced is_used define_type forget_type
    apply_create_type apply_create_enum apply_drop_type apply_drop_enum insert_after placed
    apply_add_value apply_create_table referred apply_drop_table covers apply_create_index
    apply_drop_index alter_table no_rows append_column with_column apply_add_column remove_column
    forget_value apply_drop_column value_of is_value set_value replace_value apply_update is_among
    apply_delete renamed map_columns apply_rename_type uncastable retyped apply_alter_column_type
    apply run migrate spares creates_new stray sole_user misfits with_rows
filed-IsWellFormed = with_rows-IsWellFormed "document" (scanned ∷ []) first first-IsWellFormed refl

abbrev extended : Database
extended = found (run (upgrade needs_ocr_status) filed)

revisions_reversed_example : run (downgrade needs_ocr_status) extended ≡ some filed
unfolding any_row contains override table_named has_table index_named index_on column_named
    has_column keeps_index taken clashes targets dangling is_enumeration typed uses_type
    type_undefined untyped on_column misses misplaced is_used define_type forget_type
    apply_create_type apply_create_enum apply_drop_type apply_drop_enum insert_after placed
    apply_add_value apply_create_table referred apply_drop_table covers apply_create_index
    apply_drop_index alter_table no_rows append_column with_column apply_add_column remove_column
    forget_value apply_drop_column value_of is_value set_value replace_value apply_update is_among
    apply_delete renamed map_columns apply_rename_type uncastable retyped apply_alter_column_type
    apply run migrate spares creates_new stray sole_user misfits with_rows
revisions_reversed_example =
    revisions_reversed needs_ocr_status filed extended filed-IsWellFormed (refl, refl, refl, refl)
      refl

extended-IsWellFormed : IsWellFormed extended
unfolding any_row contains override table_named has_table index_named index_on column_named
    has_column keeps_index taken clashes targets dangling is_enumeration typed uses_type
    type_undefined untyped on_column misses misplaced is_used define_type forget_type
    apply_create_type apply_create_enum apply_drop_type apply_drop_enum insert_after placed
    apply_add_value apply_create_table referred apply_drop_table covers apply_create_index
    apply_drop_index alter_table no_rows append_column with_column apply_add_column remove_column
    forget_value apply_drop_column value_of is_value set_value replace_value apply_update is_among
    apply_delete renamed map_columns apply_rename_type uncastable retyped apply_alter_column_type
    apply run migrate spares creates_new stray sole_user misfits with_rows
extended-IsWellFormed =
    upgrade-IsWellFormed needs_ocr_status filed extended filed-IsWellFormed (refl, refl, refl, refl)
      refl

abbrev unreadable : Row
unreadable = ("title", some "Exhibit A") ∷ ("ocr_status", some "needs_ocr") ∷ []

abbrev stapled : Database
stapled = with_rows "document" (unreadable ∷ scanned ∷ []) extended

stapled-IsWellFormed : IsWellFormed stapled
unfolding any_row contains override table_named has_table index_named index_on column_named
    has_column keeps_index taken clashes targets dangling is_enumeration typed uses_type
    type_undefined untyped on_column misses misplaced is_used define_type forget_type
    apply_create_type apply_create_enum apply_drop_type apply_drop_enum insert_after placed
    apply_add_value apply_create_table referred apply_drop_table covers apply_create_index
    apply_drop_index alter_table no_rows append_column with_column apply_add_column remove_column
    forget_value apply_drop_column value_of is_value set_value replace_value apply_update is_among
    apply_delete renamed map_columns apply_rename_type uncastable retyped apply_alter_column_type
    apply run migrate spares creates_new stray sole_user misfits with_rows
stapled-IsWellFormed =
    with_rows-IsWellFormed "document" (unreadable ∷ scanned ∷ []) extended extended-IsWellFormed
      refl

needs_ocr_downgraded_example :
    run NeedsOcr.downgrade stapled
    ≡ some (
        define_type "ocr_status" NeedsOcr.without_needs_ocr (
          with_rows "document"
            ((("title", some "Exhibit A") ∷ ("ocr_status", some "pending") ∷ []) ∷ scanned ∷ [])
            stapled))
unfolding any_row contains override table_named has_table index_named index_on column_named
    has_column keeps_index taken clashes targets dangling is_enumeration typed uses_type
    type_undefined untyped on_column misses misplaced is_used define_type forget_type
    apply_create_type apply_create_enum apply_drop_type apply_drop_enum insert_after placed
    apply_add_value apply_create_table referred apply_drop_table covers apply_create_index
    apply_drop_index alter_table no_rows append_column with_column apply_add_column remove_column
    forget_value apply_drop_column value_of is_value set_value replace_value apply_update is_among
    apply_delete renamed map_columns apply_rename_type uncastable retyped apply_alter_column_type
    apply run migrate spares creates_new stray sole_user misfits with_rows
needs_ocr_downgraded_example = needs_ocr_downgraded stapled stapled-IsWellFormed refl refl refl refl

-- The schema before the last revision, with no rows.
abbrev queued : Database
queued =
    record (migrated (
      case_file ∷ timeline_events ∷ needs_ocr_status ∷ accounts ∷ mfa ∷ audit_trail ∷ passkeys
      ∷ job_queue ∷ [])) { rows = λ n. [] }

queued-IsWellFormed : IsWellFormed queued
unfolding any_row contains override table_named has_table index_named index_on column_named
    has_column keeps_index taken clashes targets dangling is_enumeration typed uses_type
    type_undefined untyped on_column misses misplaced is_used define_type forget_type
    apply_create_type apply_create_enum apply_drop_type apply_drop_enum insert_after placed
    apply_add_value apply_create_table referred apply_drop_table covers apply_create_index
    apply_drop_index alter_table no_rows append_column with_column apply_add_column remove_column
    forget_value apply_drop_column value_of is_value set_value replace_value apply_update is_among
    apply_delete renamed map_columns apply_rename_type uncastable retyped apply_alter_column_type
    apply run migrate spares creates_new stray sole_user misfits with_rows
queued-IsWellFormed = record {
  keys_lead = refl;
  keys_own = refl;
  types_defined = refl;
  indexes_stand = refl;
  rows_stand = λ n h. refl;
}

abbrev noted : Database
noted = found (run (upgrade timeline_notes) queued)

abbrev audited : List Row
audited = (("action", some "event_list") ∷ []) ∷ (("action", some "case_read") ∷ []) ∷ []

timeline_notes_downgraded_example :
    run TimelineNotes.downgrade (in_use audited (scanned ∷ []) noted)
    ≡ some (with_rows "case_audit_event" ((("action", some "case_read") ∷ []) ∷ []) queued)
unfolding any_row contains override table_named has_table index_named index_on column_named
    has_column keeps_index taken clashes targets dangling is_enumeration typed uses_type
    type_undefined untyped on_column misses misplaced is_used define_type forget_type
    apply_create_type apply_create_enum apply_drop_type apply_drop_enum insert_after placed
    apply_add_value apply_create_table referred apply_drop_table covers apply_create_index
    apply_drop_index alter_table no_rows append_column with_column apply_add_column remove_column
    forget_value apply_drop_column value_of is_value set_value replace_value apply_update is_among
    apply_delete renamed map_columns apply_rename_type uncastable retyped apply_alter_column_type
    apply run migrate spares creates_new stray sole_user misfits with_rows kept_actions delete_rows
timeline_notes_downgraded_example =
    timeline_notes_downgraded queued noted audited (scanned ∷ []) queued-IsWellFormed
      (refl, refl, refl, refl) refl refl
