-- ===== src/Api/Deletion.antt =====
-- `delete_own_account` of backend/app/api/auth.py. A route takes the account that `CurrentUser` yields.
pub mod Guards
pub mod Others
use counselready.Common.{ℕ, Bool, not, Option, none, some, List}
use counselready.Common.Text.{Text}
use counselready.Effects.Exceptions.{Exn, http}
use counselready.Effects.Action.{
  Action, Result, ok, err, ◌>>=◌, ◌>>◌, pure, raise, raise_if, gets, or_raise, catch, when,
  on_database, on_store,
}
use counselready.Effects.Library.{Library}
use counselready.Models.Accounts.{UserAccount}
use counselready.Models.Database.{Database}
use counselready.Auth.Passwords.{verify_password_against}
use counselready.Auth.Mfa.{is_mfa_active, verify_code_for_login}
use counselready.Auth.Deletion.{collect_storage_keys, delete_account, purge_objects}
use counselready.Ingest.Service.{ObjectStore}
use counselready.Api.Accounts.{invalid_credentials}
use counselready.Api.MfaRoutes.{invalid_code}

pub record DeleteAccountRequest : Type 0 where
  pub password : Text
  pub mfa_code : Option Text
  pub acknowledge : Bool

pub record DeletionSummaryResponse : Type 0 where
  pub cases_deleted : ℕ
  pub documents_deleted : ℕ
  pub objects_removed : ℕ

abbrev pub unconfirmed : Exn
unconfirmed = http 422 "Confirm that you understand this cannot be undone." none

abbrev pub code_required : Exn
code_required = http 401 "A verification code is required to delete your account." none

module _ (lib : Library) where
  -- The second factor, where it is active.
  unfoldable pub check_code :
      DeleteAccountRequest → UserAccount → Option Text → ℕ → Action Database (Unit {0})
  check_code body account key now = do
    code ← or_raise body.mfa_code code_required
    catch (verify_code_for_login lib account code key now) (λ e. raise invalid_code)

  -- What stands before the deletion.
  unfoldable pub reauthenticate :
      DeleteAccountRequest → UserAccount → Option Text → ℕ → Action Database (Unit {0})
  reauthenticate body account key now = do
    raise_if (not body.acknowledge) unconfirmed
    raise_if (not (verify_password_against lib body.password account.password_hash))
        invalid_credentials
    active ← gets (is_mfa_active account.id)
    when active (check_code body account key now)

  -- `key` is `settings.mfa_encryption_key`.
  unfoldable pub delete_own_account :
      (Text → Bool)
      → DeleteAccountRequest
      → UserAccount
      → Option Text
      → ℕ
      → Action (Database × ObjectStore) DeletionSummaryResponse
  delete_own_account fails body account key now = do
    on_database (reauthenticate body account key now)
    keys ← on_database (collect_storage_keys account.id)
    summary ← on_database (delete_account account)
    removed ← on_store (purge_objects fails keys)
    pure (record {
      cases_deleted = summary.cases;
      documents_deleted = summary.documents;
      objects_removed = removed;
    })
