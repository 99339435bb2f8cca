-- ===== src/Migrations/RoundTrip.antt =====
-- Each revision's downgrade after its upgrade (backend/alembic/versions).
use counselready.Common.{
  ◌≡◌, refl, sym, ◌∙◌, subst, arith, true, some, List, [], ◌∷◌, Option-cases, inl, inr,
}
use counselready.Migrations.Schema.{Database}
use counselready.Migrations.Operations.{Op}
use counselready.Migrations.Apply.{define_type}
use counselready.Migrations.Run.{apply, run}
use counselready.Migrations.WellFormed.{IsWellFormed}
use counselready.Migrations.Preserved.{moved, define_type-IsWellFormed, define_type-IsWellFormed}
use counselready.Migrations.Reversal.{
  forward, addition-IsWellFormed, Addition, Addition, forwards, backwards, additions, creates_new,
  additions_reversed,
}
use counselready.Migrations.Statuses.{with_needs_ocr, all_actions}
use counselready.Migrations.Extension.{
  Extends, needs_ocr_back, timeline_notes_back, needs_ocr_added, notes_added,
}
use counselready.Migrations.Chain.{
  Revision, case_file, timeline_events, needs_ocr_status, accounts, mfa, audit_trail, passkeys,
  job_queue, timeline_notes, upgrade, downgrade,
}
use counselready.Migrations.Revisions.NeedsOcr
use counselready.Migrations.Revisions.TimelineNotes

-- What the revision before left: the enum types that a revision creates are not there, and one that
-- it extends has its former values, in one column only, whose rows hold no others.
abbrev pub Precedes : Revision → Database → Type 0
Precedes needs_ocr_status d =
    Extends "document" "ocr_status" "ocr_status" "ocr_status_old" NeedsOcr.without_needs_ocr d
Precedes timeline_notes d =
    Extends "case_audit_event" "action" "case_action" "case_action_old"
      TimelineNotes.previous_values d
Precedes r d = creates_new d.enums (additions (upgrade r)) ≡ true

additive :
    (up down : List Op) (d after : Database)
    → forwards (additions up) ≡ up
    → backwards (additions up) ≡ down
    → IsWellFormed d
    → creates_new d.enums (additions up) ≡ true
    → run up d ≡ some after
    → run down after ≡ some d
additive up down d after p q wf new h =
    subst (λ os. run os after ≡ some d) q
      (additions_reversed (additions up) d after wf new
        (subst (λ os. run os d ≡ some after) (sym p) h))

-- For every revision and every well-formed database as the revision before leaves it (`Precedes`: the
-- types to be created are not there, and a type to be extended has its former values, in one column
-- only, whose rows hold no others), whatever other rows it holds: where the upgrade succeeds, the downgrade after it succeeds too and gives the
-- database back as it was.
pub revisions_reversed :
    (r : Revision) (d after : Database)
    → IsWellFormed d
    → Precedes r d
    → run (upgrade r) d ≡ some after
    → run (downgrade r) after ≡ some d
revisions_reversed case_file d after =
    additive (upgrade case_file) (downgrade case_file) d after refl refl
revisions_reversed timeline_events d after =
    additive (upgrade timeline_events) (downgrade timeline_events) d after refl refl
revisions_reversed needs_ocr_status d after = needs_ocr_back d after
revisions_reversed accounts d after =
    additive (upgrade accounts) (downgrade accounts) d after refl refl
revisions_reversed mfa d after = additive (upgrade mfa) (downgrade mfa) d after refl refl
revisions_reversed audit_trail d after =
    additive (upgrade audit_trail) (downgrade audit_trail) d after refl refl
revisions_reversed passkeys d after =
    additive (upgrade passkeys) (downgrade passkeys) d after refl refl
revisions_reversed job_queue d after =
    additive (upgrade job_queue) (downgrade job_queue) d after refl refl
revisions_reversed timeline_notes d after = timeline_notes_back d after

additions-IsWellFormed :
    (adds : List Addition) (d after : Database)
    → IsWellFormed d
    → run (forwards adds) d ≡ some after
    → IsWellFormed after
unfolding run
additions-IsWellFormed [] d after wf h = moved d after (ground arith) wf
additions-IsWellFormed (a ∷ rest) d after wf h = elim (Option-cases (apply (forward a) d)) [
  | inl e ↦ ground (arith, e)
  | inr (m, e) ↦
      additions-IsWellFormed rest m after (addition-IsWellFormed a d m wf e) (ground (arith, e))
]

additive-IsWellFormed :
    (up : List Op) (d after : Database)
    → forwards (additions up) ≡ up
    → IsWellFormed d
    → run up d ≡ some after
    → IsWellFormed after
additive-IsWellFormed up d after p wf h =
    additions-IsWellFormed (additions up) d after wf (subst (λ os. run os d ≡ some after) (sym p) h)

-- For every revision and every database that the revision before has left, a successful upgrade keeps
-- the database well-formed.
pub upgrade-IsWellFormed :
    (r : Revision) (d after : Database)
    → IsWellFormed d
    → Precedes r d
    → run (upgrade r) d ≡ some after
    → IsWellFormed after
upgrade-IsWellFormed case_file d after wf before h =
    additive-IsWellFormed (upgrade case_file) d after refl wf h
upgrade-IsWellFormed timeline_events d after wf before h =
    additive-IsWellFormed (upgrade timeline_events) d after refl wf h
upgrade-IsWellFormed needs_ocr_status d after wf before h =
    moved (define_type "ocr_status" with_needs_ocr d) after
      (ground (arith, needs_ocr_added d before.0))
      (define_type-IsWellFormed "ocr_status" with_needs_ocr d wf)
upgrade-IsWellFormed accounts d after wf before h =
    additive-IsWellFormed (upgrade accounts) d after refl wf h
upgrade-IsWellFormed mfa d after wf before h = additive-IsWellFormed (upgrade mfa) d after refl wf h
upgrade-IsWellFormed audit_trail d after wf before h =
    additive-IsWellFormed (upgrade audit_trail) d after refl wf h
upgrade-IsWellFormed passkeys d after wf before h =
    additive-IsWellFormed (upgrade passkeys) d after refl wf h
upgrade-IsWellFormed job_queue d after wf before h =
    additive-IsWellFormed (upgrade job_queue) d after refl wf h
upgrade-IsWellFormed timeline_notes d after wf before h =
    additions-IsWellFormed (additions (upgrade timeline_notes))
      (define_type "case_action" all_actions d) after
      (define_type-IsWellFormed "case_action" all_actions d wf) (sym (notes_added d before.0) ∙ h)
