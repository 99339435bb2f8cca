-- ===== src/Storage/Containment.antt =====
-- The files that the local store reaches: those that its containment test lets through.
use counselready.Common.{
  List, [], ◌∷◌, Bool, true, false, ◌≡◌, refl, subst, ◌∙◌, arith, Bool-cases, inl, inr,
}
use counselready.Common.Equality.{◌==◌, nat_eq, list_eq, ==-sound}
use counselready.Common.Text.{Text}
use counselready.Effects.Library.{Bytes}
use counselready.Storage.{FileSystem, candidate, is_inside, path, write, get, unlink}

-- A call of the store, with any key whatsoever.
pub data Call : Type 0 where
  to_put : Text → Bytes → Call
  to_get : Text → Call
  to_delete : Text → Call

module _ (join : Text → Text → Text) (resolve : Text → Text) (is_relative_to : Text → Text → Bool)
    (root : Text) where
  -- The files after a call.
  unfoldable pub call : Call → FileSystem → FileSystem
  call (to_put key bytes) files = (write join resolve is_relative_to root key bytes files).1
  call (to_get key) files = (get join resolve is_relative_to root key files).1
  call (to_delete key) files = (unlink join resolve is_relative_to root key files).1

  unfoldable pub calls : List Call → FileSystem → FileSystem
  calls [] files = files
  calls (c ∷ cs) files = calls cs (call c files)

  -- The file of a key that passes the test is not one that fails it.
  other-file :
      (key file : Text)
      → is_inside join resolve is_relative_to root key ≡ true
      → is_relative_to file (resolve root) ≡ false
      → (file == candidate join resolve is_relative_to root key) ≡ false
  other-file key file inside outside =
      elim (Bool-cases (file == candidate join resolve is_relative_to root key)) [
        | inr apart ↦ apart
        | inl same ↦
            let e = ==-sound file (candidate join resolve is_relative_to root key) same in
            let clash = subst (λ f. is_relative_to f (resolve root) ≡ false) e outside in
            absurd (cc)
      ]

  call_outside :
      (c : Call) (files : FileSystem) (file : Text)
      → is_relative_to file (resolve root) ≡ false
      → call c files file ≡ files file
  unfolding call write get unlink path
  call_outside (to_put key bytes) files file outside =
      elim (Bool-cases (is_inside join resolve is_relative_to root key)) [
        | inl inside ↦ ground (arith, inside, other-file key file inside outside)
        | inr escapes ↦ ground (arith, escapes)
      ]
  call_outside (to_get key) files file outside =
      elim (Bool-cases (is_inside join resolve is_relative_to root key)) [
        | inl inside ↦ ground (arith, inside)
        | inr escapes ↦ ground (arith, escapes)
      ]
  call_outside (to_delete key) files file outside =
      elim (Bool-cases (is_inside join resolve is_relative_to root key)) [
        | inl inside ↦ ground (arith, inside, other-file key file inside outside)
        | inr escapes ↦ ground (arith, escapes)
      ]

  -- No sequence of calls, whatever keys they are given, creates, changes or removes a file that does not
  -- lie under the root.
  pub files_outside_untouched :
      (cs : List Call) (files : FileSystem) (file : Text)
      → is_relative_to file (resolve root) ≡ false
      → calls cs files file ≡ files file
  unfolding calls
  files_outside_untouched [] files file outside = refl
  files_outside_untouched (c ∷ cs) files file outside =
      files_outside_untouched cs (call c files) file outside ∙ call_outside c files file outside
