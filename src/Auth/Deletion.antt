-- ===== src/Auth/Deletion.antt =====
-- backend/app/auth/deletion.py. Which objects the store fails to remove is a parameter of a call.
pub mod Purge
use counselready.Common.{
  ℕ, suc, Bool, ◌&&◌, Option, none, some, List, [], ◌∷◌, map, length, if◌then◌else◌,
}
use counselready.Common.Equality.{◌==◌, nat_eq, list_eq}
use counselready.Common.Table.{any_row, where_rows}
use counselready.Common.Text.{Text}
use counselready.Effects.Exceptions.{Exn, other_error}
use counselready.Effects.Action.{
  Action, Result, ok, err, ◌>>=◌, ◌>>◌, pure, gets, modify, raise_if, catch,
}
use counselready.Models.Accounts.{UserAccount}
use counselready.Models.Cases.{Case}
use counselready.Models.Documents.{Document}
use counselready.Models.Database.{Database}
use counselready.Models.Cascade.{delete_user}
use counselready.Ingest.Service.{ObjectStore}

pub record DeletionSummary : Type 0 where
  pub cases : ℕ
  pub documents : ℕ
  pub objects_removed : ℕ

-- The rows of the join of documents with the cases of an owner, which have one id each.
abbrev pub is_held_by : ℕ → Database → Document → Bool
is_held_by user_id db d =
    any_row (λ c. (c.id == d.case_id) && (c.owner_id == user_id)) db.legal_case

abbrev pub keys_of : ℕ → Database → List Text
keys_of user_id db = map (λ d. d.storage_key) (where_rows (is_held_by user_id db) db.document)

unfoldable pub collect_storage_keys : ℕ → Action Database (List Text)
collect_storage_keys user_id = gets (keys_of user_id)

abbrev pub count_cases : ℕ → Database → ℕ
count_cases user_id db = length (where_rows (λ c. c.owner_id == user_id) db.legal_case)

unfoldable pub delete_account : UserAccount → Action Database DeletionSummary
delete_account account = do
  keys ← collect_storage_keys account.id
  case_count ← gets (count_cases account.id)
  modify (delete_user account.id)
  pure (record { cases = case_count; documents = length keys; objects_removed = 0 })

-- `LocalObjectStore.delete`: a missing object is no error.
unfoldable pub delete : (Text → Bool) → Text → Action ObjectStore (Unit {0})
delete fails key = do
  raise_if (fails key) other_error
  modify (λ store k. if k == key then none else store k)

-- The loop of `purge_objects`, from a count.
unfoldable pub purge_from : (Text → Bool) → ℕ → List Text → Action ObjectStore ℕ
purge_from fails removed [] = pure removed
purge_from fails removed (key ∷ keys) = do
  counted ← catch (delete fails key >> pure (suc removed)) (λ e. pure removed)
  purge_from fails counted keys

unfoldable pub purge_objects : (Text → Bool) → List Text → Action ObjectStore ℕ
purge_objects fails keys = purge_from fails 0 keys
