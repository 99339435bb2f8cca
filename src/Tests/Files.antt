-- ===== src/Tests/Files.antt =====
-- The local store at concrete paths.
use counselready.Common.{
  List, [], ◌∷◌, Bool, true, false, ◌≡◌, refl, none, some, ◌++◌, ◌&&◌, if◌then◌else◌,
}
use counselready.Common.Equality.{◌==◌, nat_eq, list_eq, list_dec, ℕ_discrete}
use counselready.Common.Text.{Text, codes}
use counselready.Storage.{FileSystem, path, write, unlink}
use counselready.Storage.Containment.{Call, to_put, to_delete, call, calls, files_outside_untouched}

abbrev join : Text → Text → Text
join root key = root ++ (codes "/" ++ key)

-- The resolution of the two paths of the test: "r/../s" is "s".
abbrev resolve : Text → Text
resolve path = if path == codes "r/../s" then codes "s" else path

abbrev starts_with : Text → Text → Bool
starts_with text [] = true
starts_with [] (p ∷ ps) = false
starts_with (c ∷ cs) (p ∷ ps) = (c == p) && starts_with cs ps

abbrev root : Text
root = codes "r"

-- One file beside the root.
abbrev files : FileSystem
files path = if path == codes "s" then some (codes "secret") else none

abbrev traversal : List Call
traversal =
    to_put (codes "a") (codes "x")
    ∷ to_put (codes "../s") (codes "y")
    ∷ to_delete (codes "../s")
    ∷ []

-- The traversal is refused, and the key under the root is written.
written : calls join resolve starts_with root traversal files (codes "r/a") ≡ some (codes "x")
unfolding calls call write unlink path list_eq list_dec ℕ_discrete
written = refl

files_outside_untouched_example :
    calls join resolve starts_with root traversal files (codes "s") ≡ files (codes "s")
unfolding list_eq list_dec ℕ_discrete
files_outside_untouched_example =
    files_outside_untouched join resolve starts_with root traversal files (codes "s") refl
