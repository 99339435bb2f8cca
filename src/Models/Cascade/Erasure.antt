-- ===== src/Models/Cascade/Erasure.antt =====
-- What the deletion of an account leaves of it.
use counselready.Common.{
  Bool-cases, inl, inr, subst, ℕ, Bool, true, false, Option, none, some, List, [], ◌∷◌, map, ◌≡◌,
  refl, arith,
}
use counselready.Common.Equality.{==-sound, ◌==◌, nat_eq}
use counselready.Common.Table.{any_row-delete_rows, any_row}
use counselready.Models.Database.{Database}
use counselready.Models.Cascade.{
  points, refers, ForeignKeys, delete_user, anonymize, anonymize_trail,
}
use counselready.Models.Cascade.References.{delete_user-ForeignKeys}
use counselready.Models.Accounts.{AuthEvent, AuthEventType}
use counselready.Models.Cases.{CaseAuditEvent, CaseAction, DetailKey}
use counselready.Common.Text.{Text}

abbrev pub names : ℕ → Option ℕ → Bool
names i none = false
names i (some j) = j == i

names_absent :
    {P : Type 0} (id : P → ℕ) (i : ℕ) (ps : List P) (k : Option ℕ)
    → any_row (λ p. id p == i) ps ≡ false
    → points id ps k ≡ true
    → names i k ≡ false
names_absent id i ps none absent h = refl
names_absent id i ps (some j) absent h = elim (Bool-cases (j == i)) [
  | inl same ↦
      let found : any_row (λ p. id p == i) ps ≡ true =
        subst (λ k. any_row (λ p. id p == k) ps ≡ true) (==-sound j i same) h in
      absurd (cc)
  | inr differs ↦ differs
]

-- Keys that all point at something point at nothing that is absent.
refers-absent :
    {C P : Type 0} (key : C → Option ℕ) (id : P → ℕ) (i : ℕ) (cs : List C) (ps : List P)
    → any_row (λ p. id p == i) ps ≡ false
    → refers key id cs ps ≡ true
    → any_row (λ c. names i (key c)) cs ≡ false
unfolding refers any_row
refers-absent key id i [] ps absent h = refl
refers-absent key id i (c ∷ cs) ps absent h =
    ground (arith, names_absent id i ps (key c) absent, refers-absent key id i cs ps absent)

account_gone :
    (u : ℕ) (db : Database) → any_row (λ a. a.id == u) (delete_user u db).user_account ≡ false
unfolding delete_user
account_gone u db = any_row-delete_rows (λ a. a.id == u) db.user_account

-- After the deletion of an account from a database whose foreign keys hold, no row names it: no session, second factor, recovery
-- code, passkey or challenge is its own, no case, no entry or note of a timeline, and neither trail
-- has it as an actor.
pub delete_user_erases :
    (user_id : ℕ) (db : Database)
    → ForeignKeys db
    → let db' = delete_user user_id db in
      (any_row (λ u. u.id == user_id) db'.user_account ≡ false)
      × (any_row (λ s. names user_id (some s.user_id)) db'.user_session ≡ false)
      × (any_row (λ e. names user_id e.user_id) db'.auth_event ≡ false)
      × (any_row (λ m. names user_id (some m.user_id)) db'.user_mfa ≡ false)
      × (any_row (λ r. names user_id (some r.user_id)) db'.recovery_code ≡ false)
      × (any_row (λ p. names user_id (some p.user_id)) db'.passkey ≡ false)
      × (any_row (λ p. names user_id p.user_id) db'.passkey_challenge ≡ false)
      × (any_row (λ c. names user_id (some c.owner_id)) db'.legal_case ≡ false)
      × (any_row (λ e. names user_id e.actor_user_id) db'.case_audit_event ≡ false)
      × (any_row (λ e. names user_id e.recorded_by_user_id) db'.case_event ≡ false)
      × (any_row (λ n. names user_id (some n.author_user_id)) db'.case_event_note ≡ false)
delete_user_erases u db keys =
    let (
      sessions, tokens, attempts, mfas, codes, passkeys, challenges, owners, parties, actors, trail,
      documents, pages, passages, fact_docs, fact_passages, events, cited, recorded, asserted,
      about, notes, authors,
    ) =
      delete_user-ForeignKeys u db keys in
    let absent = account_gone u db in
    (
      absent,
      refers-absent _ _ u _ _ absent sessions,
      refers-absent _ _ u _ _ absent attempts,
      refers-absent _ _ u _ _ absent mfas,
      refers-absent _ _ u _ _ absent codes,
      refers-absent _ _ u _ _ absent passkeys,
      refers-absent _ _ u _ _ absent challenges,
      refers-absent _ _ u _ _ absent owners,
      refers-absent _ _ u _ _ absent actors,
      refers-absent _ _ u _ _ absent recorded,
      refers-absent _ _ u _ _ absent authors,
    )

map-map :
    {A B : Type 0} (g : A → B) (f : A → A) (xs : List A)
    → ((x : A) → g (f x) ≡ g x)
    → map g (map f xs) ≡ map g xs
map-map g f [] same = refl
map-map g f (x ∷ xs) same = rw (same x, map-map g f xs same) refl

-- What a row of a trail says besides whose it is.
abbrev pub attempt : AuthEvent → Text × AuthEventType × ℕ
attempt e = (e.email, e.event_type, e.created_at)

abbrev pub deed : CaseAuditEvent → CaseAction × Option (List (DetailKey × ℕ))
deed e = (e.action, e.detail)

-- Both trails keep all of their rows, in order, with what happened and when: of a sign-in the email
-- that was given, and of a request the action and its counts.
pub delete_user_keeps_trails :
    (user_id : ℕ) (db : Database)
    → let db' = delete_user user_id db in
      (map attempt db'.auth_event ≡ map attempt db.auth_event)
      × (map deed db'.case_audit_event ≡ map deed db.case_audit_event)
unfolding delete_user
delete_user_keeps_trails u db = (
  map-map attempt (anonymize u db) db.auth_event (λ e. refl),
  map-map deed (anonymize_trail u db) db.case_audit_event (λ e. refl),
)
