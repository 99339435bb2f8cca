-- ===== src/Api/Accounts/Access.antt =====
-- Who gets past `authenticated`, and how access ends.
use counselready.Common.{
  ℕ, ◌&&◌, Option, none, some, ◌≡◌, refl, sym, ap, subst, ◌∙◌, arith, is_none, Option-cases, inl,
  inr,
}
use counselready.Common.Equality.{◌==◌, nat_eq, ==-refl}
use counselready.Common.Text.{Text}
use counselready.Effects.Exceptions.{Exn}
use counselready.Effects.Action.{Result, ok, err, modify}
use counselready.Effects.Action.Laws.{>>=-inv, >>=-ok}
use counselready.Effects.Library.{Library, Moment}
use counselready.Models.Accounts.{UserAccount, UserSession, is_active}
use counselready.Models.Database.{Database}
use counselready.Auth.Tokens.{AccessTokenClaims, decode_access_token}
use counselready.Auth.Sessions.{
  load_active_session, account_by_id, session_by_id, enabled, revoke_session,
}
use counselready.Auth.Sessions.Revocation.{revoke_session_ends, session_by_id-update}
use counselready.Api.Deps.{Authenticated, authenticated, current_user, unauthenticated}
use counselready.Api.Accounts.{logout, logout_everywhere, end_sessions_of}

module _ (lib : Library) (credentials : Option Text) (secret : Text) (now : ℕ) (db : Database) where
  -- What the gate has checked of those whom it lets in.
  abbrev Admits : Result Authenticated × Database → Type 0
  Admits (ok auth, db') =
      (token : Text) × (claims : AccessTokenClaims) × (session : UserSession) × (credentials
        ≡ some token)
      × (decode_access_token lib token secret now ≡ some claims)
      × (load_active_session claims.session_id now db ≡ some session)
      × (enabled (account_by_id claims.user_id db) ≡ some auth.account)
      × (auth.session_id ≡ claims.session_id)
      × (db' ≡ db)
  Admits (err e, db') = (e ≡ unauthenticated) × (db' ≡ db)

  authenticated-Admits : Admits (authenticated lib credentials secret now db)
  unfolding authenticated
  authenticated-Admits = elim (Option-cases credentials) [
    | inl absent ↦ rw (absent, authenticated) (refl, refl)
    | inr (token, given) ↦
        rw (given, authenticated)
          (elim (Option-cases (decode_access_token lib token secret now)) [
            | inl bad ↦ rw bad (refl, refl)
            | inr (claims, decoded) ↦
                rw decoded (elim (Option-cases (load_active_session claims.session_id now db)) [
                  | inl ended ↦ rw ended (refl, refl)
                  | inr (session, loaded) ↦
                      rw loaded (elim (Option-cases (enabled (account_by_id claims.user_id db))) [
                        | inl missing ↦ rw missing (refl, refl)
                        | inr (account, found) ↦
                            rw found
                              (token, claims, session, refl, decoded, loaded, found, refl, refl)
                      ])
                ])
          ])
  ]

  -- A request is let in only with a token that decodes, whose session is live and whose account
  -- exists and is active; and the gate writes nothing.
  pub authenticated_sound :
      {auth : Authenticated} {db' : Database}
      → authenticated lib credentials secret now db ≡ (ok auth, db')
      → (token : Text) × (claims : AccessTokenClaims) × (session : UserSession) × (credentials
          ≡ some token)
        × (decode_access_token lib token secret now ≡ some claims)
        × (load_active_session claims.session_id now db ≡ some session)
        × (enabled (account_by_id claims.user_id db) ≡ some auth.account)
        × (auth.session_id ≡ claims.session_id)
        × (db' ≡ db)
  authenticated_sound h = subst Admits h authenticated-Admits

  -- Every request that is not let in gets one and the same response.
  pub authenticated_uniform :
      {e : Exn} {db' : Database}
      → authenticated lib credentials secret now db ≡ (err e, db')
      → (e ≡ unauthenticated) × (db' ≡ db)
  authenticated_uniform h = subst Admits h authenticated-Admits

-- A token whose session cannot be loaded is not let in.
ended-unauthenticated :
    (lib : Library) (token secret : Text) (now : ℕ) (db : Database) (claims : AccessTokenClaims)
    → decode_access_token lib token secret now ≡ some claims
    → load_active_session claims.session_id now db ≡ none
    → authenticated lib (some token) secret now db ≡ (err unauthenticated, db)
unfolding authenticated
ended-unauthenticated lib token secret now db claims decoded ended =
    rw (decoded, authenticated) (rw ended)

-- Logging out ends access at once: after it, every token of that session is refused, whenever it
-- expires and whichever request it is presented with.
pub logout_ends_access :
    (lib : Library) (token token' secret : Text) (claims claims' : AccessTokenClaims) (t : Moment)
    (later : ℕ) (db : Database) {db' : Database}
    → decode_access_token lib token secret t.now ≡ some claims
    → logout lib (some token) secret t db ≡ (ok tt, db')
    → decode_access_token lib token' secret later ≡ some claims'
    → claims'.session_id ≡ claims.session_id
    → authenticated lib (some token') secret later db' ≡ (err unauthenticated, db')
unfolding logout
logout_ends_access lib token token' secret claims claims' t later db {db'} decoded h decoded' same =
    let (auth, d, entered, revoked) =
      >>=-inv (authenticated lib (some token) secret t.now)
        (λ auth. revoke_session auth.session_id t.now) db h in
    let (tok, cl, session, e, dec, loaded, found, own, kept) =
      authenticated_sound lib (some token) secret t.now db entered in
    let stored : (revoke_session auth.session_id t.now d).1 ≡ db' = ap (λ x. x.1) revoked in
    let opened : some cl ≡ some claims = cc in
    let named : claims'.session_id ≡ auth.session_id = cc in
    ended-unauthenticated lib token' secret later db' claims' decoded'
      (rw (named, sym stored) (revoke_session_ends auth.session_id t.now later d).1)

end_sessions_of-unloads :
    (user_id now later i : ℕ) (db : Database) (s : UserSession)
    → session_by_id i db ≡ some s
    → s.user_id ≡ user_id
    → load_active_session i later (end_sessions_of user_id now db) ≡ none
unfolding load_active_session is_active
end_sessions_of-unloads user_id now later i db s found own =
    rw
      (
        session_by_id-update i (λ s. (s.user_id == user_id) && is_none s.revoked_at)
            (λ s. record s { revoked_at = some now }) db (λ s. refl),
        found,
        own,
        ==-refl user_id,
      )
      (ground arith)

-- Logging out everywhere ends every session of the account.
pub logout_everywhere_ends :
    (lib : Library) (credentials : Option Text) (secret : Text) (t : Moment) (later i : ℕ)
    (account : UserAccount) (s : UserSession) (db : Database) {db' : Database}
    → current_user lib credentials secret t.now db ≡ (ok account, db)
    → session_by_id i db ≡ some s
    → s.user_id ≡ account.id
    → logout_everywhere lib credentials secret t db ≡ (ok tt, db')
    → load_active_session i later db' ≡ none
unfolding logout_everywhere
logout_everywhere_ends lib credentials secret t later i account s db {db'} entered found own h =
    let stored : end_sessions_of account.id t.now db ≡ db' =
      ap (λ x. x.1)
        (sym (
            >>=-ok (current_user lib credentials secret t.now)
              (λ account. modify (end_sessions_of account.id t.now)) db entered)
          ∙ h) in
    rw (sym stored) (end_sessions_of-unloads account.id t.now later i db s found own)
