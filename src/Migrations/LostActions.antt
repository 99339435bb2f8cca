-- ===== src/Migrations/LostActions.antt =====
-- The downgrade that drops the notes and three audit actions, on whatever rows there are
-- (backend/alembic/versions: 4b7c1d90e2aa).
use counselready.Common.{
  ◌≡◌, refl, sym, ap, ◌∙◌, arith, String, false, some, List, [], Option-cases, inl, inr,
}
use mathlib.Core.Path.{fun_ext}
use counselready.Common.Table.{delete_rows}
use text.Mathlib.Text.{◌==◌}
use text.Mathlib.TextEquality.{eq_iff}
use counselready.Migrations.Schema.{Row, Database}
use counselready.Migrations.Operations.{override, has_table}
use counselready.Migrations.Apply.{
  define_type, apply_drop_index, apply_drop_table, value_of, is_among,
}
use counselready.Migrations.Run.{apply, run}
use counselready.Migrations.WellFormed.{IsWellFormed}
use counselready.Migrations.Preserved.{define_type-IsWellFormed}
use counselready.Migrations.Undo.{override_here, override_back}
use counselready.Migrations.Reversal.{
  backwards, additions, creates_new, additions_reversed, run-append,
}
use counselready.Migrations.Rebuild.{sole_user}
use counselready.Migrations.Values.{misfits}
use counselready.Migrations.Statuses.{
  with_rows, with_rows-IsWellFormed, sole_user_there, all_actions, shrink_actions, actions_shrunk,
}
use counselready.Migrations.Extension.{Extends, notes_added, override_again}
use counselready.Migrations.Revisions.TimelineNotes

-- Rows of another table stay through the end of an index and of a table, and those of the table go.
drop_index_rows :
    (n t k : String) (rs : List Row) (d after : Database)
    → apply_drop_index n t d ≡ some after
    → apply_drop_index n t (with_rows k rs d) ≡ some (with_rows k rs after)
unfolding apply_drop_index with_rows
drop_index_rows n t k rs d after h = ground arith

overrides_swapped :
    {A : Type 0} (m n : String) (v w : A) (f : String → A)
    → (m == n) ≡ false
    → override m v (override n w f) ≡ override n w (override m v f)
unfolding override
overrides_swapped m n v w f apart =
    fun_ext (λ k. ground (arith, eq_iff m k, eq_iff n k, eq_iff m n))

drop_table_rows :
    (n k : String) (rs : List Row) (d after : Database)
    → (n == k) ≡ false
    → apply_drop_table n d ≡ some after
    → apply_drop_table n (with_rows k rs d) ≡ some (with_rows k rs after)
unfolding apply_drop_table with_rows has_table
drop_table_rows n k rs d after apart h = ground (arith, overrides_swapped n k [] rs d.rows apart)

drop_table_own :
    (n : String) (rs : List Row) (d after : Database)
    → apply_drop_table n d ≡ some after
    → apply_drop_table n (with_rows n rs d) ≡ some after
unfolding apply_drop_table with_rows has_table
drop_table_own n rs d after h = ground (arith, override_again n [] rs d.rows)

-- The database after the upgrade, with the audit trail and the notes of later requests.
abbrev pub in_use : List Row → List Row → Database → Database
in_use events notes d = with_rows "case_audit_event" events (with_rows "case_event_note" notes d)

drops_in_use :
    (events notes : List Row) (after wider : Database)
    → run (backwards (additions TimelineNotes.upgrade)) after ≡ some wider
    → run (backwards (additions TimelineNotes.upgrade)) (in_use events notes after)
      ≡ some (with_rows "case_audit_event" events wider)
unfolding run apply
drops_in_use events notes after wider h =
    elim (Option-cases
      (apply_drop_index "ix_case_event_note_event_created" "case_event_note" after)) [
        | inl e ↦ ground (arith, e)
        | inr (mid, e) ↦ elim (Option-cases (apply_drop_table "case_event_note" mid)) [
          | inl f ↦ ground (arith, e, f)
          | inr (last, f) ↦
              let used_mid = with_rows "case_event_note" notes mid in
              let index =
                drop_index_rows "ix_case_event_note_event_created" "case_event_note"
                  "case_audit_event" events (with_rows "case_event_note" notes after) used_mid
                  (drop_index_rows "ix_case_event_note_event_created" "case_event_note"
                    "case_event_note" notes after mid e) in
              let table =
                drop_table_rows "case_event_note" "case_audit_event" events used_mid last refl
                  (drop_table_own "case_event_note" notes mid last f) in
              rw (index, table) (ground (arith, e, f))
        ]
      ]

unfoldable pub kept_actions : List Row → List Row
kept_actions events =
    delete_rows (λ r. is_among TimelineNotes.new_values (value_of "action" r)) events

settled :
    (events rs : List Row) (d : Database)
    → d.enums "case_action" ≡ some TimelineNotes.previous_values
    → define_type "case_action" TimelineNotes.previous_values (
        with_rows "case_audit_event" rs
          (with_rows "case_audit_event" events (define_type "case_action" all_actions d)))
      ≡ with_rows "case_audit_event" rs d
unfolding define_type with_rows
settled events rs d h =
    let enums =
      override_back "case_action" (some all_actions) (some TimelineNotes.previous_values) d.enums
        h in
    rw (enums, override_again "case_audit_event" rs events d.rows) refl

-- After the upgrade of revision 4b7c1d90e2aa on a well-formed database where `case_action` has its six
-- former values, in the trail's `action` only, whose rows hold no others, and no type has the name of
-- its temporary twin, let the audit trail and the notes come to hold any rows, the trail's actions among the nine.
-- Then the downgrade succeeds and gives the database before the upgrade with that trail, less exactly
-- the rows of the three new actions.
pub timeline_notes_downgraded :
    (d after : Database) (events notes : List Row)
    → IsWellFormed d
    → Extends "case_audit_event" "action" "case_action" "case_action_old"
        TimelineNotes.previous_values d
    → run TimelineNotes.upgrade d ≡ some after
    → misfits all_actions "action" events ≡ false
    → run TimelineNotes.downgrade (in_use events notes after)
      ≡ some (with_rows "case_audit_event" (kept_actions events) d)
unfolding define_type with_rows kept_actions delete_rows override
timeline_notes_downgraded d after events notes wf (h, h', sole, fits) up listed =
    let wider = define_type "case_action" all_actions d in
    let wf' = define_type-IsWellFormed "case_action" all_actions d wf in
    let dropped =
      additions_reversed (additions TimelineNotes.upgrade) wider after wf'
        (unfold creates_new in refl) (sym (notes_added d h) ∙ up) in
    let there = sole_user_there "case_audit_event" "action" "case_action" d sole in
    let shrunk =
      actions_shrunk (with_rows "case_audit_event" events wider)
        (with_rows-IsWellFormed "case_audit_event" events wider wf' (unfold has_table in there))
        (unfold sole_user in sole) (override_here "case_action" (some all_actions) d.enums)
        (unfold override in h') (unfold override in listed) in
    run-append (backwards (additions TimelineNotes.upgrade)) shrink_actions
      (in_use events notes after)
    ∙ rw (drops_in_use events notes after wider dropped)
        (shrunk ∙ ap some (settled events (kept_actions events) d h))
