-- ===== src/Auth/Sessions/Revocation.antt =====
-- A session that has ended.
use counselready.Common.{
  ℕ, Bool, true, none, some, ◌≡◌, refl, arith, if◌then◌else◌, is_some, Option-cases, inl, inr,
}
use counselready.Common.Equality.{◌==◌, nat_eq, list_eq}
use counselready.Common.Table.{find_row-update_rows, find_row_sound}
use counselready.Effects.Action.{ok}
use counselready.Models.Accounts.{UserSession, is_active}
use counselready.Models.Database.{Database}
use counselready.Auth.Sessions.{session_by_id, update_sessions, revoke_session, load_active_session}

-- An update of the sessions that keeps their ids changes the session of an id, if it meets it.
pub session_by_id-update :
    (i : ℕ) (q : UserSession → Bool) (f : UserSession → UserSession) (db : Database)
    → ((s : UserSession) → (f s).id ≡ s.id)
    → session_by_id i (update_sessions q f db)
      ≡ elim (session_by_id i db) [ none ↦ none | some s ↦ some (if q s then f s else s) ]
session_by_id-update i q f db keeps =
    find_row-update_rows (λ s. s.id == i) q f (λ s. rw (keeps s)) db.user_session

-- The session of an id exists, and has been revoked.
abbrev pub IsRevoked : ℕ → Database → Type 0
IsRevoked i db = (s : UserSession) × (session_by_id i db ≡ some s) × (is_some s.revoked_at ≡ true)

-- A revoked session is loaded for no token, at no time.
pub load_active_session_revoked :
    (i now : ℕ) (db : Database) → IsRevoked i db → load_active_session i now db ≡ none
unfolding load_active_session is_active
load_active_session_revoked i now db (s, found, ended) =
    rw (found, load_active_session) (ground arith)

pub revoke_session_unloads :
    (i now later : ℕ) (db : Database)
    → load_active_session i later (revoke_session i now db).1 ≡ none
unfolding revoke_session load_active_session is_active
revoke_session_unloads i now later db =
    rw (session_by_id-update i _ (λ s. record s { revoked_at = some now }) db (λ s. refl))
      (elim (Option-cases (session_by_id i db)) [
        | inl missing ↦ rw missing
        | inr (s, found) ↦ rw found (ground (arith, find_row_sound _ db.user_session found))
      ])

-- Revoking ends the session at once: whatever session the id names, no later request loads it, and
-- a session that had already been revoked keeps the time of its first revocation.
pub revoke_session_ends :
    (i now later : ℕ) (db : Database)
    → ((revoke_session i now db).0 ≡ ok tt)
      × (load_active_session i later (revoke_session i now db).1 ≡ none)
      × ((s : UserSession)
          → session_by_id i db ≡ some s
          → is_some s.revoked_at ≡ true
          → session_by_id i (revoke_session i now db).1 ≡ some s)
unfolding revoke_session
revoke_session_ends i now later db = (
  refl,
  revoke_session_unloads i now later db,
  λ s found ended.
      rw (session_by_id-update i _ (λ s. record s { revoked_at = some now }) db (λ s. refl), found)
        (ground arith),
)
