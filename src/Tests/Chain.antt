-- ===== src/Tests/Chain.antt =====
-- The migrations (backend/alembic/versions) one after the other, from an empty database.
use counselready.Common.{◌≡◌, refl, String, true, Option, none, some, List, [], ◌∷◌, map, is_some}
use counselready.Common.Table.{any_row}
use counselready.Migrations.Schema.{Table, Database}
use counselready.Migrations.Operations.{
  contains, override, table_named, has_table, index_named, index_on, column_named, has_column,
  keeps_index, taken, clashes, targets, dangling, is_enumeration, typed, uses_type, type_undefined,
  untyped, on_column, misses, misplaced,
}
use counselready.Migrations.Apply.{
  is_used, define_type, forget_type, apply_create_type, apply_create_enum, apply_drop_type,
  apply_drop_enum, insert_after, placed, apply_add_value, apply_create_table, referred,
  apply_drop_table, covers, apply_create_index, apply_drop_index, alter_table, no_rows,
  append_column, with_column, apply_add_column, remove_column, forget_value, apply_drop_column,
  value_of, is_value, set_value, replace_value, apply_update, is_among, apply_delete,
}
use counselready.Migrations.Recast.{
  renamed, map_columns, apply_rename_type, uncastable, retyped, apply_alter_column_type,
}
use counselready.Migrations.Run.{apply, run}
use counselready.Migrations.Chain.{
  migrate, Revision, case_file, timeline_events, needs_ocr_status, accounts, mfa, audit_trail,
  passkeys, job_queue, timeline_notes, upgrade, base, revisions,
}
use counselready.Migrations.Reversal.{spares, creates_new}
use counselready.Migrations.Rebuild.{stray, sole_user}
use counselready.Migrations.Values.{misfits}
use counselready.Migrations.Statuses.{with_rows}
use counselready.Migrations.RoundTrip.{Precedes}

abbrev pub found : Option Database → Database
found none = base
found (some d) = d

abbrev pub migrated : List Revision → Database
migrated rs = found (migrate rs base)

names : Database → List String
names d = map (λ (t : Table). t.name) d.tables

-- The tables at the head.
names_head :
    names (migrated revisions)
    ≡ "case_event_note" ∷ "job" ∷ "passkey_challenge" ∷ "passkey" ∷ "case_audit_event" ∷ "user_mfa"
      ∷ "recovery_code" ∷ "used_refresh_token" ∷ "user_session" ∷ "auth_event" ∷ "case_event"
      ∷ "extracted_fact" ∷ "passage" ∷ "document_page" ∷ "document" ∷ "party" ∷ "case"
      ∷ "user_account" ∷ []
unfolding any_row contains override table_named has_table index_named index_on column_named
    has_column keeps_index taken clashes targets dangling is_enumeration typed uses_type
    type_undefined untyped on_column misses misplaced is_used define_type forget_type
    apply_create_type apply_create_enum apply_drop_type apply_drop_enum insert_after placed
    apply_add_value apply_create_table referred apply_drop_table covers apply_create_index
    apply_drop_index alter_table no_rows append_column with_column apply_add_column remove_column
    forget_value apply_drop_column value_of is_value set_value replace_value apply_update is_among
    apply_delete renamed map_columns apply_rename_type uncastable retyped apply_alter_column_type
    apply run migrate spares creates_new stray sole_user misfits with_rows names
names_head = refl

-- The empty database upgraded to the revision before.
before : Revision → Database
before case_file = base
before timeline_events = migrated (case_file ∷ [])
before needs_ocr_status = migrated (case_file ∷ timeline_events ∷ [])
before accounts = migrated (case_file ∷ timeline_events ∷ needs_ocr_status ∷ [])
before mfa = migrated (case_file ∷ timeline_events ∷ needs_ocr_status ∷ accounts ∷ [])
before audit_trail = migrated (case_file ∷ timeline_events ∷ needs_ocr_status ∷ accounts ∷ mfa ∷ [])
before passkeys =
    migrated (case_file ∷ timeline_events ∷ needs_ocr_status ∷ accounts ∷ mfa ∷ audit_trail ∷ [])
before job_queue =
    migrated (
      case_file ∷ timeline_events ∷ needs_ocr_status ∷ accounts ∷ mfa ∷ audit_trail ∷ passkeys ∷ [])
before timeline_notes = migrated (
    case_file ∷ timeline_events ∷ needs_ocr_status ∷ accounts ∷ mfa ∷ audit_trail ∷ passkeys
    ∷ job_queue ∷ [])

-- It is what each revision expects.
before-Precedes : (r : Revision) → Precedes r (before r)
unfolding any_row contains override table_named has_table index_named index_on column_named
    has_column keeps_index taken clashes targets dangling is_enumeration typed uses_type
    type_undefined untyped on_column misses misplaced is_used define_type forget_type
    apply_create_type apply_create_enum apply_drop_type apply_drop_enum insert_after placed
    apply_add_value apply_create_table referred apply_drop_table covers apply_create_index
    apply_drop_index alter_table no_rows append_column with_column apply_add_column remove_column
    forget_value apply_drop_column value_of is_value set_value replace_value apply_update is_among
    apply_delete renamed map_columns apply_rename_type uncastable retyped apply_alter_column_type
    apply run migrate spares creates_new stray sole_user misfits with_rows before
before-Precedes case_file = refl
before-Precedes timeline_events = refl
before-Precedes needs_ocr_status = (refl, refl, refl, refl)
before-Precedes accounts = refl
before-Precedes mfa = refl
before-Precedes audit_trail = refl
before-Precedes passkeys = refl
before-Precedes job_queue = refl
before-Precedes timeline_notes = (refl, refl, refl, refl)

-- And each upgrade applies to it.
upgrades_apply : (r : Revision) → is_some (run (upgrade r) (before r)) ≡ true
unfolding any_row contains override table_named has_table index_named index_on column_named
    has_column keeps_index taken clashes targets dangling is_enumeration typed uses_type
    type_undefined untyped on_column misses misplaced is_used define_type forget_type
    apply_create_type apply_create_enum apply_drop_type apply_drop_enum insert_after placed
    apply_add_value apply_create_table referred apply_drop_table covers apply_create_index
    apply_drop_index alter_table no_rows append_column with_column apply_add_column remove_column
    forget_value apply_drop_column value_of is_value set_value replace_value apply_update is_among
    apply_delete renamed map_columns apply_rename_type uncastable retyped apply_alter_column_type
    apply run migrate spares creates_new stray sole_user misfits with_rows before
upgrades_apply case_file = refl
upgrades_apply timeline_events = refl
upgrades_apply needs_ocr_status = refl
upgrades_apply accounts = refl
upgrades_apply mfa = refl
upgrades_apply audit_trail = refl
upgrades_apply passkeys = refl
upgrades_apply job_queue = refl
upgrades_apply timeline_notes = refl
