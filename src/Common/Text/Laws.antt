-- ===== src/Common/Text/Laws.antt =====
-- The text methods on texts that they leave alone.
use Prim.Native.Nat.{ℕ}
use mathlib.Core.Path.{◌≡◌, refl, subst, sym, ◌∙◌}
use mathlib.Core.Logic.{◌≢◌}
use mathlib.Core.Bool.{false}
use mathlib.Core.List.{List, [], ◌∷◌, ◌++◌, reverse, reverse-cons, reverse-reverse}
use native.Mathlib.Omega.{arith}
use counselready.Common.Equality.{nat_eq, ==-refl}
use counselready.Common.Lists.{All, All-append}
use counselready.Common.Text.{Text, Unicode, strip, drop_spaces, to_upper, without}

All-reverse {ℓ κ} : {A : Type ℓ} (P : A → Type κ) (xs : List A) → All P xs → All P (reverse xs)
All-reverse P [] h = tt
All-reverse P (x ∷ xs) h =
    subst (All P) (sym (reverse-cons x xs)) (All-append P _ _ (All-reverse P xs h.1) (h.0, tt))

module _ (u : Unicode) where
  abbrev pub IsInk : ℕ → Type 0
  IsInk c = u.is_space c ≡ false

  drop_spaces-ink : (s : Text) → All IsInk s → drop_spaces u s ≡ s
  unfolding drop_spaces
  drop_spaces-ink [] h = refl
  drop_spaces-ink (c ∷ s) h = rw h.0

  -- A text without white space is stripped to itself.
  pub strip-ink : (s : Text) → All IsInk s → strip u s ≡ s
  unfolding strip
  strip-ink s h =
      rw (drop_spaces-ink s h, drop_spaces-ink (reverse s) (All-reverse IsInk s h))
        (reverse-reverse s)

  -- A text of upper-case characters is its own upper case.
  pub to_upper-fixed : (s : Text) → All (λ c. u.upper c ≡ c ∷ []) s → to_upper u s ≡ s
  unfolding to_upper
  to_upper-fixed [] h = refl
  to_upper-fixed (c ∷ s) h = rw (h.0, to_upper-fixed s h.1)

pub without-append : (c : ℕ) (s t : Text) → without c (s ++ t) ≡ without c s ++ without c t
unfolding without
without-append c [] t = refl
without-append c (x ∷ s) t = ground (arith, without-append c s t)

-- A text that lacks the character stays as it is.
pub without-absent : (c : ℕ) (s : Text) → All (λ x. x ≢ c) s → without c s ≡ s
unfolding without
without-absent c [] h = refl
without-absent c (x ∷ s) h = ground (arith, without-absent c s h.1, h.0)

-- Up to a first occurrence of the character nothing is taken out.
pub without-separator :
    (c : ℕ) (s t : Text) → All (λ x. x ≢ c) s → without c (s ++ c ∷ t) ≡ s ++ without c t
unfolding without
without-separator c s t h = without-append c s (c ∷ t) ∙ rw (without-absent c s h, ==-refl c)
