-- ===== src/Api/Passkeys/Replay.antt =====
-- Who a passkey signs in, and what becomes of the challenge.
use counselready.Common.{
  ℕ, true, false, leb, ◌≡◌, ◌<◌, refl, sym, ap, ◌∙◌, subst, arith, Option, some, Option-cases,
  Bool-cases, inl, inr,
}
use counselready.Common.Equality.{◌==◌, nat_eq, list_eq}
use counselready.Common.Table.{
  any_row-delete_rows, find_row-missing, find_row, delete_rows, any_row,
}
use counselready.Common.Text.{Text}
use counselready.Effects.Action.{Result, ok, err, ◌>>=◌}
use counselready.Effects.Action.Laws.{>>=-inv}
use counselready.Effects.Library.{Library, Bytes, RelyingParty, Moment, Draw}
use counselready.Models.Accounts.{UserAccount, Passkey, PasskeyChallenge}
use counselready.Models.Database.{Database}
use counselready.Auth.Passkeys.{decode_challenge, verify_authentication}
use counselready.Auth.Sessions.{account_by_id, complete_mfa_login, issue_session}
use counselready.Api.Accounts.{TokenResponse}
use counselready.Api.Passkeys.{
  record_assertion, invalid, consume_challenge, assertion, login_complete, register_complete,
}
use counselready.Auth.Tokens.{issue_access_token}

module _ (lib : Library) (credential : Text) where
  -- The challenge that a credential presents stands in the database until it expires.
  abbrev pub Pending : ℕ → Database → Text → Type 0
  Pending now db presented =
      (lib.client_challenge credential ≡ some presented)
      × (c : PasskeyChallenge) × (find_row (λ c. c.challenge == presented) db.passkey_challenge
          ≡ some c)
      × (now < c.expires_at)

  abbrev spent : Text → Database → Database
  spent presented db = record db {
    passkey_challenge = delete_rows (λ c. c.challenge == presented) db.passkey_challenge;
  }

  consume_challenge-inv :
      (now : ℕ) (db : Database) {challenge : Bytes} {db' : Database}
      → consume_challenge lib credential now db ≡ (ok challenge, db')
      → (presented : Text) × Pending now db presented
        × (challenge ≡ decode_challenge lib presented)
        × (db' ≡ spent presented db)
  unfolding consume_challenge
  consume_challenge-inv now db {challenge} {db'} h =
      elim (Option-cases (lib.client_challenge credential)) [
        | inl malformed ↦ absurd (ground arith)
        | inr (presented, e) ↦
            elim (Option-cases (find_row (λ c. c.challenge == presented) db.passkey_challenge)) [
              | inl missing ↦ absurd (ground arith)
              | inr (c, found) ↦ elim (Bool-cases (leb c.expires_at now)) [
                | inl late ↦ absurd (ground arith)
                | inr live ↦ (presented, (e, c, found, ground arith), ground arith, ground arith)
              ]
            ]
      ]

  module _ (party : RelyingParty) where
    -- A passkey of an active account whose assertion over a challenge verifies.
    abbrev pub Asserts : Bytes → Database → Passkey → UserAccount → ℕ → Type 0
    Asserts challenge db passkey account new_count =
        (credential_id : Bytes) × (lib.credential_raw_id credential ≡ some credential_id)
        × (find_row (λ p. p.credential_id == credential_id) db.passkey ≡ some passkey)
        × (account_by_id passkey.user_id db ≡ some account)
        × (account.active ≡ true)
        × (lib.verify_authentication_response party credential challenge passkey.public_key
              passkey.sign_count
            ≡ some new_count)

    abbrev Asserted : Bytes → Database → Result (Passkey × UserAccount × ℕ) × Database → Type 0
    Asserted challenge db (ok (p, a, n), db') = Asserts challenge db p a n × (db' ≡ db)
    Asserted challenge db (err e, db') = Unit

    assertion-inv :
        (challenge : Bytes) (db : Database) {p : Passkey} {a : UserAccount} {n : ℕ} {db' : Database}
        → assertion lib party credential challenge db ≡ (ok (p, a, n), db')
        → Asserts challenge db p a n × (db' ≡ db)
    unfolding assertion verify_authentication
    assertion-inv challenge db {p} {a} {n} {db'} h =
        elim (Option-cases (lib.credential_raw_id credential)) [
          | inl malformed ↦ absurd (ground arith)
          | inr (raw, e) ↦ elim (Option-cases (find_row (λ p. p.credential_id == raw) db.passkey)) [
            | inl missing ↦ absurd (ground arith)
            | inr (q, found) ↦ elim (Option-cases (account_by_id q.user_id db)) [
              | inl orphan ↦ absurd (ground arith)
              | inr (b, owner) ↦ elim (Bool-cases b.active) [
                | inr off ↦ absurd (ground arith)
                | inl active ↦
                    elim (Option-cases (
                      lib.verify_authentication_response party credential challenge q.public_key
                        q.sign_count)) [
                          | inl forged ↦ absurd (ground arith)
                          | inr (m, verified) ↦
                              let same : assertion lib party credential challenge db
                                  ≡ (ok (q, b, m), db) =
                                ground arith in
                              subst (Asserted challenge db) (sym same ∙ h)
                                ((raw, e, found, owner, active, verified), refl)
                        ]
              ]
            ]
          ]
        ]

    record_assertion-challenges :
        (secret : Text) (t : Moment) (draw : Draw) (p : Passkey) (a : UserAccount) (n : ℕ)
        (db : Database)
        → (record_assertion lib party secret t draw (p, a, n) db).1.passkey_challenge
          ≡ db.passkey_challenge
    unfolding record_assertion complete_mfa_login issue_session
    record_assertion-challenges secret t draw p a n db = ground arith

    record_assertion-tokens :
        (secret : Text) (t : Moment) (draw : Draw) (p : Passkey) (a : UserAccount) (n : ℕ)
        (db : Database) {r : TokenResponse} {db' : Database}
        → record_assertion lib party secret t draw (p, a, n) db ≡ (ok r, db')
        → r.access_token ≡ issue_access_token lib a.id draw.uuid secret t.now
    unfolding record_assertion complete_mfa_login issue_session
    record_assertion-tokens secret t draw p a n db h = ground arith

    -- How a passkey is admitted: the challenge it answers is pending and is gone afterwards.
    abbrev pub Admits : Text → Moment → Draw → Database → Result TokenResponse × Database → Type 0
    Admits secret t draw db (ok r, db') =
        (presented : Text) × Pending t.now db presented
        × (p : Passkey) × (a : UserAccount) × (n : ℕ) × Asserts (decode_challenge lib presented) db
            p a n
        × (r.access_token ≡ issue_access_token lib a.id draw.uuid secret t.now)
        × (any_row (λ c. c.challenge == presented) db'.passkey_challenge ≡ false)
    Admits secret t draw db (err e, db') = Unit

    -- A passkey signs in only over a challenge of the server that has not expired, by an assertion that
    -- the library has verified against the stored key and count of the passkey that the credential
    -- names. The token is for the account that has the passkey, which is active, and the challenge is
    -- gone.
    pub login_complete-Admits :
        (secret : Text) (t : Moment) (draw : Draw) (db : Database) {r : TokenResponse}
        {db' : Database}
        → login_complete lib party credential secret t draw db ≡ (ok r, db')
        → Admits secret t draw db (ok r, db')
    unfolding login_complete
    login_complete-Admits secret t draw db {r} {db'} h =
        let (challenge, s1, e1, h1) =
          >>=-inv (consume_challenge lib credential t.now)
            (λ challenge.
              assertion lib party credential challenge >>= record_assertion lib party secret t draw)
            db h in
        let ((p, a, n), s2, e2, h2) =
          >>=-inv (assertion lib party credential challenge)
            (record_assertion lib party secret t draw) s1 h1 in
        let (presented, pending, decoded, left) = consume_challenge-inv t.now db e1 in
        let (asserts, kept) = assertion-inv challenge s1 e2 in
        let asserted : Asserts (decode_challenge lib presented) db p a n =
          subst (λ c. Asserts c db p a n) decoded
            (subst (λ s. Asserts challenge s p a n) left asserts) in
        let same : db'.passkey_challenge ≡ (spent presented db).passkey_challenge =
          sym (ap (λ x. x.1.passkey_challenge) h2)
          ∙ record_assertion-challenges secret t draw p a n s2
          ∙ ap (λ s. s.passkey_challenge) (kept ∙ left) in
        (
          presented,
          pending,
          p,
          a,
          n,
          asserted,
          record_assertion-tokens secret t draw p a n s2 h2,
          ap (any_row (λ c. c.challenge == presented)) same
              ∙ any_row-delete_rows (λ c. c.challenge == presented) db.passkey_challenge,
        )

    spent-refused :
        (presented : Text) (now : ℕ) (db : Database)
        → lib.client_challenge credential ≡ some presented
        → any_row (λ c. c.challenge == presented) db.passkey_challenge ≡ false
        → consume_challenge lib credential now db ≡ (err invalid, db)
    unfolding consume_challenge
    spent-refused presented now db e gone =
        let missing = find_row-missing (λ c. c.challenge == presented) db.passkey_challenge gone in
        ground (arith, missing)

    -- A credential that has signed in serves no second time, neither to sign in nor to register,
    -- whoever sends it and however soon.
    pub login_complete_once :
        (secret : Text) (t : Moment) (draw : Draw) (db : Database) {r : TokenResponse}
        {db' : Database} (other_secret : Text) (later : Moment) (other_draw : Draw)
        (label : Option Text) (account : UserAccount) (uuid : ℕ)
        → login_complete lib party credential secret t draw db ≡ (ok r, db')
        → (login_complete lib party credential other_secret later other_draw db'
            ≡ (err invalid, db'))
          × (register_complete lib party credential label account later.now uuid db'
              ≡ (err invalid, db'))
    unfolding login_complete register_complete
    login_complete_once secret t draw db {r} {db'} other_secret later other_draw label account uuid
          h =
        let y = login_complete-Admits secret t draw db h in
        let refused = spent-refused y.0 later.now db' y.1.0 y.7 in
        (ground (arith, refused), ground (arith, refused))
