-- ===== src/Common/Text.antt =====
-- Python's `str` as its sequence of code points, with the methods that the program calls.
pub mod Laws
use Prim.Native.Char.{code}
use Prim.Native.Nat.{ℕ}
use Prim.Native.String.{String}
use mathlib.Core.Bool.{Bool, true, false}
use mathlib.Core.List.{List, [], ◌∷◌, ◌++◌, reverse}
use counselready.Common.Equality.{◌==◌, nat_eq}
use counselready.Common.Tests.{if◌then◌else◌}

abbrev pub Text : Type 0
Text = List ℕ

abbrev pub codes : String → Text
codes String.[] = []
codes (String.◌∷◌ c s) = code c ∷ codes s

-- Unicode's tables, which Python's string methods read: character classes, and the case maps of
-- one character.
pub record Unicode : Type 0 where
  pub is_space : ℕ → Bool
  pub is_digit : ℕ → Bool
  pub upper : ℕ → Text
  pub casefold : ℕ → Text

-- `s.replace(c, "")` for a text `c` of one character.
unfoldable pub without : ℕ → Text → Text
without c [] = []
without c (x ∷ s) = let rest = without c s in if x == c then rest else x ∷ rest

module _ (u : Unicode) where
  -- `s.upper()` and `s.casefold()`, character by character.
  unfoldable pub to_upper : Text → Text
  to_upper [] = []
  to_upper (c ∷ s) = u.upper c ++ to_upper s

  unfoldable pub to_casefold : Text → Text
  to_casefold [] = []
  to_casefold (c ∷ s) = u.casefold c ++ to_casefold s

  drop_spaces : Text → Text
  drop_spaces [] = []
  drop_spaces (c ∷ s) = let rest = drop_spaces s in if u.is_space c then rest else c ∷ s

  -- `s.strip()`
  unfoldable pub strip : Text → Text
  unfolding drop_spaces
  strip s = reverse (drop_spaces (reverse (drop_spaces s)))

  -- `s.isdigit()`: no character is not a digit, and there is one.
  all_digits : Text → Bool
  all_digits [] = true
  all_digits (c ∷ s) = if u.is_digit c then all_digits s else false

  unfoldable pub is_digits : Text → Bool
  unfolding all_digits
  is_digits [] = false
  is_digits (c ∷ s) = all_digits (c ∷ s)
