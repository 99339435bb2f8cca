-- ===== src/Migrations/Extension.antt =====
-- The two revisions that give an enum type more values, and what takes the values back
-- (backend/alembic/versions: c3f07a19b842, 4b7c1d90e2aa).
use counselready.Common.{
  Bool-cases, ap, ◌≡◌, refl, sym, ◌∙◌, subst, arith, String, true, false, Option, none, some, List,
  map, inl, inr,
}
use mathlib.Core.Path.{fun_ext}
use counselready.Common.Table.{any_row, delete_rows}
use text.Mathlib.Text.{◌==◌}
use text.Mathlib.TextEquality.{eq_iff}
use counselready.Migrations.Schema.{Row, Database}
use counselready.Migrations.Operations.{add_value, override, contains}
use counselready.Migrations.Apply.{
  apply_add_value, placed, insert_after, define_type, replace_value, is_among, value_of,
}
use counselready.Migrations.Run.{apply, run}
use counselready.Migrations.WellFormed.{IsWellFormed, any_row_implies}
use counselready.Migrations.Preserved.{define_type-IsWellFormed}
use counselready.Migrations.Undo.{override_here, override_back}
use counselready.Migrations.Reversal.{
  forwards, backwards, creates_new, additions, additions_reversed, run-append,
}
use counselready.Migrations.Rebuild.{sole_user}
use counselready.Migrations.Values.{misfits, replaced_none, kept_all}
use counselready.Migrations.Statuses.{
  with_needs_ocr, with_rows, needs_ocr_downgraded, all_actions, shrink_actions, actions_shrunk,
}
use counselready.Migrations.Revisions.NeedsOcr
use counselready.Migrations.Revisions.TimelineNotes
use counselready.Migrations.Recast.{uncastable}

-- The enum type `e` has these values, one column has the type, and its rows hold no others.
abbrev pub Extends : String → String → String → String → List String → Database → Type 0
Extends n c e old values d =
    (d.enums e ≡ some values)
    × (d.enums old ≡ none)
    × (sole_user n c e d ≡ true)
    × (misfits values c (d.rows n) ≡ false)

-- An entry replaced by itself.
override_self {ℓ} :
    {A : Type ℓ} (n : String) (v : A) (f : String → A) → f n ≡ v → override n v f ≡ f
unfolding override
override_self n v f h = fun_ext (λ m. ground (arith, eq_iff n m))

-- A database with a type's former values put back over others, and rows that did not change.
restored :
    (e n : String) (values longer : List String) (rs : List Row) (d : Database)
    → d.enums e ≡ some values
    → rs ≡ d.rows n
    → define_type e values (with_rows n rs (define_type e longer d)) ≡ d
unfolding define_type with_rows
restored e n values longer rs d h k =
    let enums = override_back e (some longer) (some values) d.enums h in
    let rows = override_self n rs d.rows (sym k) in rw (enums, rows) refl

pub needs_ocr_added :
    (d : Database)
    → d.enums "ocr_status" ≡ some NeedsOcr.without_needs_ocr
    → run NeedsOcr.upgrade d ≡ some (define_type "ocr_status" with_needs_ocr d)
unfolding run apply apply_add_value placed contains insert_after any_row
needs_ocr_added d h = rw h refl

uncastable_more :
    (before after : List String)
    → ((v : String) → contains before v ≡ true → contains after v ≡ true)
    → (o : Option String) → uncastable after o ≡ true
    → uncastable before o ≡ true
unfolding uncastable
uncastable_more before after more none h = h
uncastable_more before after more (some v) h = ground (arith, more v)

statuses_more :
    (v : String) → contains NeedsOcr.without_needs_ocr v ≡ true → contains with_needs_ocr v ≡ true
unfolding contains any_row
statuses_more v h = ground arith

misfits_more :
    (before after : List String) (c : String) (rs : List Row)
    → ((v : String) → contains before v ≡ true → contains after v ≡ true)
    → misfits before c rs ≡ false
    → misfits after c rs ≡ false
unfolding misfits
misfits_more before after c rs more =
    any_row_implies (λ r. uncastable after (value_of c r)) (λ r. uncastable before (value_of c r))
      rs (λ r. uncastable_more before after more (value_of c r))

pub needs_ocr_back :
    (d after : Database)
    → IsWellFormed d
    → Extends "document" "ocr_status" "ocr_status" "ocr_status_old" NeedsOcr.without_needs_ocr d
    → run NeedsOcr.upgrade d ≡ some after
    → run NeedsOcr.downgrade after ≡ some d
unfolding define_type
needs_ocr_back d after wf (h, h', sole, fits) up =
    let same : define_type "ocr_status" with_needs_ocr d ≡ after =
      ground (arith, needs_ocr_added d h) in
    subst (λ x. run NeedsOcr.downgrade x ≡ some d) same
      (needs_ocr_downgraded (define_type "ocr_status" with_needs_ocr d)
          (define_type-IsWellFormed "ocr_status" with_needs_ocr d wf)
          (unfold define_type sole_user in sole)
          (unfold define_type in override_here "ocr_status" (some with_needs_ocr) d.enums)
          (unfold define_type override in h')
          (unfold define_type in
            misfits_more NeedsOcr.without_needs_ocr with_needs_ocr "ocr_status" (d.rows "document")
              statuses_more fits)
        ∙ ap some (
            restored "ocr_status" "document" NeedsOcr.without_needs_ocr with_needs_ocr
              (map (replace_value "ocr_status" "pending" "needs_ocr") (d.rows "document")) d h
              (replaced_none "ocr_status" "pending" "needs_ocr" NeedsOcr.without_needs_ocr
                (unfold contains any_row in refl) (d.rows "document") fits)))

pub override_again {ℓ} :
    {A : Type ℓ} (n : String) (v w : A) (f : String → A)
    → override n v (override n w f) ≡ override n v f
unfolding override
override_again n v w f = fun_ext (λ m. ground arith)

actions_more :
    (v : String) → contains TimelineNotes.previous_values v ≡ true → contains all_actions v ≡ true
unfolding contains any_row
actions_more v h = ground arith

absent :
    (values : List String) (w v : String)
    → contains values w ≡ false
    → contains values v ≡ true
    → (w == v) ≡ false
absent values w v h k = elim (Bool-cases (w == v)) [
  | inl e ↦
      let same : w ≡ v = (eq_iff w v).0 e in
      let there = subst (λ x. contains values x ≡ false) same h in ground (arith, there)
  | inr e ↦ e
]

actions_apart :
    (v : String)
    → contains TimelineNotes.previous_values v ≡ true
    → contains TimelineNotes.new_values v ≡ false
unfolding contains any_row
actions_apart v h = ground (
  arith,
  absent TimelineNotes.previous_values "event_created" v refl h,
  absent TimelineNotes.previous_values "event_list" v refl h,
  absent TimelineNotes.previous_values "event_note_created" v refl h,
)

define_again :
    (n : String) (v w : List String) (d : Database)
    → define_type n v (define_type n w d) ≡ define_type n v d
unfolding define_type
define_again n v w d = rw (override_again n (some v) (some w) d.enums) refl

actions_added :
    (d : Database)
    → d.enums "case_action" ≡ some TimelineNotes.previous_values
    → run (map (λ value. add_value "case_action" value none) TimelineNotes.new_values) d
      ≡ some (define_type "case_action" all_actions d)
unfolding run apply apply_add_value placed contains any_row define_type override
actions_added d h = rw h (
    ap some
      (define_again "case_action" all_actions _ _ ∙ define_again "case_action" all_actions _ d))

pub notes_added :
    (d : Database)
    → d.enums "case_action" ≡ some TimelineNotes.previous_values
    → run TimelineNotes.upgrade d
      ≡ run (forwards (additions TimelineNotes.upgrade)) (define_type "case_action" all_actions d)
notes_added d h =
    run-append (map (λ value. add_value "case_action" value none) TimelineNotes.new_values)
      (forwards (additions TimelineNotes.upgrade)) d
    ∙ rw (actions_added d h) refl

pub timeline_notes_back :
    (d after : Database)
    → IsWellFormed d
    → Extends "case_audit_event" "action" "case_action" "case_action_old"
        TimelineNotes.previous_values d
    → run TimelineNotes.upgrade d ≡ some after
    → run TimelineNotes.downgrade after ≡ some d
unfolding define_type
timeline_notes_back d after wf (h, h', sole, fits) up =
    let wider = define_type "case_action" all_actions d in
    let wf' = define_type-IsWellFormed "case_action" all_actions d wf in
    let dropped =
      additions_reversed (additions TimelineNotes.upgrade) wider after wf'
        (unfold creates_new in refl) (sym (notes_added d h) ∙ up) in
    let shrunk =
      actions_shrunk wider wf' (unfold sole_user in sole)
        (override_here "case_action" (some all_actions) d.enums) (unfold override in h')
        (misfits_more TimelineNotes.previous_values all_actions "action" (d.rows "case_audit_event")
          actions_more fits) in
    run-append (backwards (additions TimelineNotes.upgrade)) shrink_actions after
    ∙ rw dropped (
        shrunk
        ∙ ap some (
            restored "case_action" "case_audit_event" TimelineNotes.previous_values all_actions
              (delete_rows (λ r. is_among TimelineNotes.new_values (value_of "action" r))
                (d.rows "case_audit_event"))
              d h
              (kept_all "action" TimelineNotes.previous_values TimelineNotes.new_values
                (d.rows "case_audit_event") actions_apart fits)))
