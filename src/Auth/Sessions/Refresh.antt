-- ===== src/Auth/Sessions/Refresh.antt =====
-- Rotation of refresh tokens, and what a replay does inside its request's transaction.
use counselready.Common.{
  ℕ, true, Option, none, some, ◌≡◌, refl, arith, Option-cases, Bool-cases, inl, inr, subst, ap, sym,
  ◌∙◌,
}
use mathlib.Core.Option.{or_else}
use counselready.Common.Equality.{◌==◌, nat_eq, list_eq, ==-refl}
use counselready.Common.Table.{find_row, find_row-add_row, update_rows, add_row}
use counselready.Common.Text.{Text}
use counselready.Effects.Exceptions.{invalid_refresh_token}
use counselready.Effects.Action.{Result, ok, err}
use counselready.Effects.Library.{Library, Draw}
use counselready.Models.Accounts.{UserSession, UserAccount, UsedRefreshToken, is_active}
use counselready.Models.Database.{Database}
use counselready.Auth.Tokens.{hash_refresh_token}
use counselready.Auth.Sessions.{
  live, revoke_session, IssuedSession, session_by_id, session_by_digest, used_token,
  load_active_session, enabled, refresh_session, refresh_branch, refresh_fresh, refresh_replayed,
  rotate, account_by_id,
}
use counselready.Auth.Sessions.Revocation.{revoke_session_ends, session_by_id-update}

module _ (lib : Library) (token secret : Text) (draw : Draw) where
  refresh_session_found :
      (now : ℕ) (db : Database) (o : Option UsedRefreshToken)
      → used_token (hash_refresh_token lib token) db ≡ o
      → refresh_session lib token secret now draw db
        ≡ refresh_branch lib o (hash_refresh_token lib token) secret now draw db
  unfolding refresh_session
  refresh_session_found now db o e =
      ap (λ x. refresh_branch lib x (hash_refresh_token lib token) secret now draw db) e

  -- A token that was rotated away is refused. Only in the state that the raise leaves, which the
  -- transaction of the request rolls back, is the session that it belonged to revoked.
  pub refresh_session_replayed :
      (now later : ℕ) (db : Database) (used : UsedRefreshToken)
      → used_token (hash_refresh_token lib token) db ≡ some used
      → ((refresh_session lib token secret now draw db).0 ≡ err invalid_refresh_token)
        × (load_active_session used.session_id later
              (refresh_session lib token secret now draw db).1
            ≡ none)
  unfolding refresh_branch refresh_replayed
  refresh_session_replayed now later db used replayed =
      rw (refresh_session_found now db (some used) replayed) (
        ground (arith, revoke_session_ends used.session_id now later db),
        ground (arith, revoke_session_ends used.session_id now later db),
      )

  abbrev digest : Text
  digest = hash_refresh_token lib token

  abbrev used_row : UserSession → UsedRefreshToken
  used_row s = record { session_id = s.id; digest = digest }

  -- What a rotation of the session `s` returns and leaves.
  abbrev Rotates : ℕ → UserSession → Database → Result IssuedSession × Database → Type 0
  Rotates now s db (ok issued, db') =
      (is_active s now ≡ true)
      × (issued.session_id ≡ s.id)
      × (issued.refresh_token ≡ draw.token)
      × (used_token digest db' ≡ some (used_row s))
      × (db'.user_session
          ≡ update_rows (λ r. r.id == s.id)
              (λ r. record r {
                refresh_digest = hash_refresh_token lib draw.token;
                last_used_at = some now;
              })
              db.user_session)
  Rotates now s db (err e, db') = Unit

  used_token-add :
      (s : UserSession) (db : Database)
      → used_token digest db ≡ none
      → find_row (λ u. u.digest == digest) (add_row (used_row s) db.used_refresh_token)
        ≡ some (used_row s)
  unfolding or_else
  used_token-add s db e = rw (find_row-add_row, e, ==-refl digest)

  rotate-Rotates :
      (now : ℕ) (s : UserSession) (a : UserAccount) (db : Database)
      → used_token digest db ≡ none
      → is_active s now ≡ true
      → Rotates now s db (rotate lib s a digest secret now draw db)
  unfolding rotate
  rotate-Rotates now s a db e act = ground (arith, used_token-add s db e)

  refresh_fresh-Rotates :
      (now : ℕ) (s : UserSession) (db : Database)
      → used_token digest db ≡ none
      → session_by_digest digest db ≡ some s
      → Rotates now s db (refresh_fresh lib digest secret now draw db)
  unfolding refresh_fresh
  refresh_fresh-Rotates now s db fresh found =
      rw (found, refresh_fresh)
        (elim (Bool-cases (is_active s now)) [
          | inr ended ↦ rw ended tt
          | inl act ↦ rw act (elim (Option-cases (enabled (account_by_id s.user_id db))) [
            | inl missing ↦ rw missing tt
            | inr (a, e) ↦ rw e (rotate-Rotates now s a db fresh act)
          ])
        ])

  -- A refresh that returns, with a token whose digest is not used up and is held by a session that is
  -- the one of its id: the session is live, keeps its id, its owner and its expiry, and now holds the
  -- digest of the token returned; the presented digest is recorded as used for that session.
  pub refresh_session_rotates :
      (now : ℕ) (s : UserSession) (db : Database) {issued : IssuedSession} {db' : Database}
      → used_token digest db ≡ none
      → session_by_digest digest db ≡ some s
      → session_by_id s.id db ≡ some s
      → refresh_session lib token secret now draw db ≡ (ok issued, db')
      → (is_active s now ≡ true)
        × (issued.session_id ≡ s.id)
        × (issued.refresh_token ≡ draw.token)
        × (session_by_id s.id db'
            ≡ some (record s {
              refresh_digest = hash_refresh_token lib draw.token;
              last_used_at = some now;
            }))
        × (used_token digest db' ≡ some (used_row s))
  unfolding refresh_branch
  refresh_session_rotates now s db {db'} fresh found own h =
      let r =
        subst (Rotates now s db) (sym (refresh_session_found now db none fresh) ∙ h)
          (refresh_fresh-Rotates now s db fresh found) in
      (
        r.0,
        r.1,
        r.2,
        ap (find_row (λ x. x.id == s.id)) r.4
            ∙ session_by_id-update s.id _
                (λ x. record x {
                  refresh_digest = hash_refresh_token lib draw.token;
                  last_used_at = some now;
                })
                db (λ x. refl)
            ∙ rw (own, ==-refl s.id),
        r.3,
      )

  -- A refresh that returns leaves a row of the token's digest among the used ones.
  abbrev pub Spends : Result IssuedSession × Database → Type 0
  Spends (ok issued, db') = (used : UsedRefreshToken) × (used_token digest db' ≡ some used)
  Spends (err e, db') = Unit

  Rotates-Spends :
      (now : ℕ) (s : UserSession) (db : Database) (x : Result IssuedSession × Database)
      → Rotates now s db x
      → Spends x
  Rotates-Spends now s db (ok issued, db') rotates = (used_row s, rotates.3)
  Rotates-Spends now s db (err e, db') rotates = tt

  refresh_fresh-Spends :
      (now : ℕ) (db : Database)
      → used_token digest db ≡ none
      → Spends (refresh_fresh lib digest secret now draw db)
  unfolding refresh_fresh
  refresh_fresh-Spends now db fresh = elim (Option-cases (session_by_digest digest db)) [
    | inl missing ↦ rw missing tt
    | inr (s, found) ↦ Rotates-Spends now s db _ (refresh_fresh-Rotates now s db fresh found)
  ]

  pub refresh_session-Spends :
      (now : ℕ) (db : Database) → Spends (refresh_session lib token secret now draw db)
  unfolding refresh_branch refresh_replayed revoke_session
  refresh_session-Spends now db = elim (Option-cases (used_token digest db)) [
    | inl fresh ↦ rw (refresh_session_found now db none fresh) (refresh_fresh-Spends now db fresh)
    | inr (used, replayed) ↦ rw (refresh_session_found now db (some used) replayed) tt
  ]

  -- No refresh forgets a digest that is used up.
  used_token-stays :
      (other : Text) (used : UsedRefreshToken) (s : UserSession) (db : Database)
      → used_token other db ≡ some used
      → find_row (λ u. u.digest == other) (add_row (used_row s) db.used_refresh_token) ≡ some used
  unfolding or_else
  used_token-stays other used s db e = rw (find_row-add_row, e) refl

  rotate-stays :
      (other : Text) (used : UsedRefreshToken) (now : ℕ) (s : UserSession) (a : UserAccount)
      (db : Database)
      → used_token other db ≡ some used
      → used_token other (rotate lib s a digest secret now draw db).1 ≡ some used
  unfolding rotate
  rotate-stays other used now s a db e = ground (arith, used_token-stays other used s db e)

  refresh_fresh-stays :
      (other : Text) (used : UsedRefreshToken) (now : ℕ) (db : Database)
      → used_token other db ≡ some used
      → used_token other (refresh_fresh lib digest secret now draw db).1 ≡ some used
  unfolding refresh_fresh
  refresh_fresh-stays other used now db e =
      elim (Option-cases (live (session_by_digest digest db) now)) [
        | inl missing ↦ rw missing e
        | inr (s, found) ↦ rw found (elim (Option-cases (enabled (account_by_id s.user_id db))) [
          | inl missing ↦ rw missing e
          | inr (a, known) ↦ rw known (rotate-stays other used now s a db e)
        ])
      ]

  pub refresh_session-stays :
      (other : Text) (used : UsedRefreshToken) (now : ℕ) (db : Database)
      → used_token other db ≡ some used
      → used_token other (refresh_session lib token secret now draw db).1 ≡ some used
  unfolding refresh_branch refresh_replayed revoke_session
  refresh_session-stays other used now db e = elim (Option-cases (used_token digest db)) [
    | inl fresh ↦
        rw (refresh_session_found now db none fresh) (refresh_fresh-stays other used now db e)
    | inr (u, replayed) ↦ rw (refresh_session_found now db (some u) replayed) e
  ]
