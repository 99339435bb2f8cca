-- ===== src/Storage.antt =====
-- backend/app/storage/local.py: the object store over a file system, which is a function from resolved
-- paths to the bytes of files. Directories and a disk that refuses a write are not modelled. What
-- pathlib does is a parameter: `join` is its `/`, `resolve` its `resolve` and `is_relative_to` its
-- test of that name.
pub mod Containment
use counselready.Common.{not, Bool, Option, none, some, if◌then◌else◌}
use counselready.Common.Equality.{◌==◌, nat_eq, list_eq}
use counselready.Common.Text.{Text}
use counselready.Effects.Exceptions.{value_error, object_not_found}
use counselready.Effects.Action.{Action, ◌>>=◌, ◌>>◌, pure, raise_if, modify, gets, or_raise}
use counselready.Effects.Library.{Bytes}

abbrev pub FileSystem : Type 0
FileSystem = Text → Option Bytes

module _ (join : Text → Text → Text) (resolve : Text → Text) (is_relative_to : Text → Text → Bool)
    (root : Text) where
  abbrev pub candidate : Text → Text
  candidate key = resolve (join root key)

  abbrev pub is_inside : Text → Bool
  is_inside key = is_relative_to (candidate key) (resolve root)

  -- `_path`
  unfoldable pub path : Text → Action FileSystem Text
  path key = do raise_if (not (is_inside key)) value_error; pure (candidate key)

  unfoldable pub write : Text → Bytes → Action FileSystem (Unit {0})
  write key bytes = do p ← path key; modify (λ files q. if q == p then some bytes else files q)

  unfoldable pub get : Text → Action FileSystem Bytes
  get key = do p ← path key; found ← gets (λ files. files p); or_raise found object_not_found

  unfoldable pub unlink : Text → Action FileSystem (Unit {0})
  unlink key = do p ← path key; modify (λ files q. if q == p then none else files q)
