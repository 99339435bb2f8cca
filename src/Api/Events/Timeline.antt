-- ===== src/Api/Events/Timeline.antt =====
-- The order of a timeline.
use counselready.Common.{
  ℕ, none, some, List, [], ◌∷◌, ◌≡◌, refl, sym, subst, map, length, Option-cases, inl, inr,
}
use mathlib.Core.List.{Perm}
use counselready.Common.Equality.{◌==◌, nat_eq}
use counselready.Common.Sort.{by_keys, IsOrdered, sort_by-perm, sort_by_keys-IsOrdered}
use counselready.Common.Table.{where_rows}
use counselready.Effects.Action.{Action, Result, ok, err, ◌>>=◌, ◌>>◌, pure, gets}
use counselready.Models.Accounts.{UserAccount}
use counselready.Models.Cases.{Case, event_list, events}
use counselready.Models.Timeline.{CaseEvent}
use counselready.Models.Database.{Database}
use counselready.Api.Cases.{audit, owned_case, case_not_found}
use counselready.Api.Cases.Ownership.{own_case, owned_case-found, owned_case-missing}
use counselready.Api.Events.{EventResponse, list_events, event_response, events_of}
use counselready.Effects.Action.Laws.{>>=-ok, >>=-err}

-- A timeline as it is answered: the entries of the case, each once, in the order of when they happened
-- and then of when they were recorded.
abbrev pub Lists : ℕ → UserAccount → Database → Result (List EventResponse) × Database → Type 0
Lists i account db (ok response, db') =
    (c : Case) × (own_case i account db ≡ some c)
    × (es : List CaseEvent) × Perm es (where_rows (λ e. e.case_id == c.id) db.case_event)
    × IsOrdered (by_keys (λ e. e.occurred_at) (λ e. e.created_at)) es
    × (response ≡ map (event_response db) es)
Lists i account db (err e, db') = (own_case i account db ≡ none) × (e ≡ case_not_found) × (db' ≡ db)

-- A timeline is answered whole and in order: each entry of the case once, by when it happened and then
-- by when it was recorded. A case that is not the account's is answered as a missing one.
pub list_events-Lists :
    (i : ℕ) (account : UserAccount) (db : Database) → Lists i account db (list_events i account db)
unfolding list_events audit
list_events-Lists i account db =
    let answer : Case → Action Database (List EventResponse) = λ case. do
      found ← gets (λ db. map (event_response db) (events_of case.id db))
      audit account (some case.id) event_list (some ((events, length found) ∷ []))
      pure found
    in elim (Option-cases (own_case i account db)) [
      | inl missing ↦
          subst (Lists i account db)
            (sym
              (>>=-err (owned_case i account) answer db (owned_case-missing i account db missing)))
            (missing, refl, refl)
      | inr (c, found) ↦
          let rows = where_rows (λ e. e.case_id == c.id) db.case_event in
          subst (Lists i account db)
            (sym (>>=-ok (owned_case i account) answer db (owned_case-found i account db found)))
            (
              c,
              found,
              events_of c.id db,
              sort_by-perm (by_keys (λ e. e.occurred_at) (λ e. e.created_at)) rows,
              sort_by_keys-IsOrdered (λ e. e.occurred_at) (λ e. e.created_at) rows,
              refl,
            )
    ]
