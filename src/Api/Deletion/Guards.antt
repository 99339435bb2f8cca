-- ===== src/Api/Deletion/Guards.antt =====
-- What an account proves before it is deleted, and what the deletion then does.
use counselready.Common.{
  ℕ, Bool, true, false, not, Option, none, some, length, ◌≡◌, ◌⊎◌, inl, inr, refl, arith,
  Bool-cases,
}
use counselready.Common.Table.{count_rows}
use counselready.Common.Text.{Text}
use counselready.Effects.Action.{
  raise, catch, Result, ok, err, ◌>>=◌, ◌>>◌, pure, on_database, on_store, or_raise,
}
use counselready.Effects.Action.Laws.{catch-inv}
use counselready.Effects.Library.{Library}
use counselready.Models.Accounts.{UserAccount}
use counselready.Models.Database.{Database}
use counselready.Models.Cascade.{delete_user}
use counselready.Auth.Passwords.{verify_password_against}
use counselready.Auth.Mfa.{is_mfa_active, verify_code_for_login}
use counselready.Auth.Deletion.{
  collect_storage_keys, delete_account, purge_objects, keys_of, count_cases,
}
use counselready.Auth.Deletion.Purge.{purge_objects_lem, purged}
use counselready.Ingest.Service.{ObjectStore}
use counselready.Api.MfaRoutes.{invalid_code}
use counselready.Api.Deletion.{
  code_required, DeleteAccountRequest, DeletionSummaryResponse, check_code, reauthenticate,
  delete_own_account,
}

module _ (lib : Library) (fails : Text → Bool) (body : DeleteAccountRequest) (account : UserAccount)
    (key : Option Text) (now : ℕ) (db : Database) where
  -- The account's second factor is off, or the request has a code that it accepts.
  abbrev pub Factor : Database → Type 0
  Factor mid =
      (is_mfa_active account.id db ≡ false) × (mid ≡ db)
      ⊎ ((code : Text) × (body.mfa_code ≡ some code)
          × (verify_code_for_login lib account code key now db ≡ (ok tt, mid)))

  abbrev Proves : Database → Type 0
  Proves mid =
      (body.acknowledge ≡ true)
      × (verify_password_against lib body.password account.password_hash ≡ true)
      × Factor mid

  check_code-inv :
      {mid : Database}
      → check_code lib body account key now db ≡ (ok tt, mid)
      → (code : Text) × (body.mfa_code ≡ some code)
        × (verify_code_for_login lib account code key now db ≡ (ok tt, mid))
  unfolding check_code
  check_code-inv {mid} h = go body.mfa_code refl h
    where
      go :
          (o : Option Text)
          → body.mfa_code ≡ o
          → (or_raise o code_required >>= λ code.
                catch (verify_code_for_login lib account code key now) (λ e. raise invalid_code))
              db
            ≡ (ok tt, mid)
          → (code : Text) × (body.mfa_code ≡ some code)
            × (verify_code_for_login lib account code key now db ≡ (ok tt, mid))
      go none e k = absurd (cc)
      go (some code) e k = (
        code,
        e,
        catch-inv (verify_code_for_login lib account code key now) (λ e. invalid_code) db k,
      )

  reauthenticate-inv :
      {mid : Database} → reauthenticate lib body account key now db ≡ (ok tt, mid) → Proves mid
  unfolding reauthenticate
  reauthenticate-inv {mid} h = elim (Bool-cases body.acknowledge) [
    | inr silent ↦ absurd (ground (arith))
    | inl told ↦
        elim (Bool-cases (verify_password_against lib body.password account.password_hash)) [
          | inr wrong ↦ absurd (ground arith)
          | inl right ↦ elim (Bool-cases (is_mfa_active account.id db)) [
            | inr off ↦ (told, right, inl (off, ground arith))
            | inl active ↦ (told, right, inr (check_code-inv {mid = mid} (ground arith)))
          ]
        ]
  ]

  module _ (store : ObjectStore) where
    -- How a request for deletion ends.
    abbrev pub Deletes : Result DeletionSummaryResponse × (Database × ObjectStore) → Type 0
    Deletes (ok response, (db', store')) =
        (mid : Database) × Proves mid
        × (db' ≡ delete_user account.id mid)
        × (response.cases_deleted ≡ count_cases account.id mid)
        × (response.documents_deleted ≡ length (keys_of account.id mid))
        × (response.objects_removed ≡ count_rows (λ k. not (fails k)) (keys_of account.id mid))
        × ((k : Text) → store' k ≡ purged fails (keys_of account.id mid) store k)
    Deletes (err e, (db', store')) = store' ≡ store

    purged-Deletes :
        (mid : Database)
        → Proves mid
        → (r : Result ℕ × ObjectStore)
        → (r.0 ≡ ok (count_rows (λ k. not (fails k)) (keys_of account.id mid)))
        → ((k : Text) → r.1 k ≡ purged fails (keys_of account.id mid) store k)
        → Deletes (
            (on_store (λ s. r) >>= λ removed. pure (record {
              cases_deleted = count_cases account.id mid;
              documents_deleted = length (keys_of account.id mid);
              objects_removed = removed;
            }))
              (delete_user account.id mid, store))
    purged-Deletes mid proof (ok n, store') count left = (mid, proof, refl, refl, refl, cc, left)
    purged-Deletes mid proof (err e, store') count left = absurd (cc)

    reauthenticated-Deletes :
        (r : Result (Unit {0}) × Database)
        → reauthenticate lib body account key now db ≡ r
        → Deletes (
            (on_database (λ s. r) >> (do
              keys ← on_database (collect_storage_keys account.id)
              summary ← on_database (delete_account account)
              removed ← on_store (purge_objects fails keys)
              pure (record {
                cases_deleted = summary.cases;
                documents_deleted = summary.documents;
                objects_removed = removed;
              })))
              (db, store))
    unfolding collect_storage_keys delete_account
    reauthenticated-Deletes (ok tt, mid) h =
        let (count, left) = purge_objects_lem fails (keys_of account.id mid) store in
        purged-Deletes mid (reauthenticate-inv h)
          (purge_objects fails (keys_of account.id mid) store) count left
    reauthenticated-Deletes (err e, mid) h = refl

    -- A deletion happens only if the request acknowledges it, its password is the account's, and the
    -- second factor, where it is active, has accepted its code. It then deletes the account with all
    -- that hangs on it, removes every object of its documents that can be removed and no other, and
    -- answers with the counts. A refused deletion removes no object.
    pub delete_own_account-Deletes :
        Deletes (delete_own_account lib fails body account key now (db, store))
    unfolding delete_own_account
    delete_own_account-Deletes =
        reauthenticated-Deletes (reauthenticate lib body account key now db) refl
