-- ===== src/Auth/Totp/Codes.antt =====
-- Recovery codes survive their own formatting.
use counselready.Common.{
  ℕ, ◌≡◌, ◌≢◌, arith, [], ◌∷◌, ◌++◌, All, All-append, length, take, drop, ap, ◌∙◌, sym, false,
  take_all, length-drop, drop-drop, take-append-drop, All-take, All-drop, All-map,
}
use counselready.Common.Text.{Text, Unicode, without}
use counselready.Common.Text.Laws.{strip-ink, to_upper-fixed, without-separator, without-absent}
use counselready.Effects.Library.{Library}
use counselready.Auth.Totp.{group_code, normalize_recovery_code, hash_recovery_code}

-- The part of a grouped code from `raw[i]` on, five characters long.
abbrev group : ℕ → Text → Text
group i raw = take 5 (drop i raw)

All-group_code : (P : ℕ → Type 0) (raw : Text) → P b'-' → All P raw → All P (group_code raw)
unfolding group_code
All-group_code P raw dash h =
    let part : (i : ℕ) → All P (group i raw) =
      λ i. All-take P 5 (drop i raw) (All-drop P i raw h) in
    All-append P (take 5 raw) _ (part 0) (
      dash,
      All-append P (group 5 raw) _ (part 5)
          (dash, All-append P (group 10 raw) _ (part 10) (dash, part 15)),
    )

regroup :
    (raw : Text)
    → length raw ≡ 20
    → take 5 raw ++ (group 5 raw ++ (group 10 raw ++ group 15 raw)) ≡ raw
regroup raw n =
    let last : group 15 raw ≡ drop 15 raw =
      take_all 5 (drop 15 raw) (omega (arith, length-drop 15 raw)) in
    let third : group 10 raw ++ drop 15 raw ≡ drop 10 raw =
      ap (◌++◌ (group 10 raw)) (sym (drop-drop 5 10 raw)) ∙ take-append-drop 5 (drop 10 raw) in
    let second : group 5 raw ++ drop 10 raw ≡ drop 5 raw =
      ap (◌++◌ (group 5 raw)) (sym (drop-drop 5 5 raw)) ∙ take-append-drop 5 (drop 5 raw) in
    rw (last, third, second) (take-append-drop 5 raw)

-- Taking the dashes out of a grouped code gives back its twenty characters.
without-group_code :
    (raw : Text) → All (λ c. c ≢ b'-') raw → length raw ≡ 20 → without b'-' (group_code raw) ≡ raw
unfolding group_code
without-group_code raw h n =
    let part : (i : ℕ) → All (λ c. c ≢ b'-') (group i raw) =
      λ i. All-take _ 5 (drop i raw) (All-drop _ i raw h) in
    simp
      (
        without-separator b'-' _ _ (part 0),
        without-separator b'-' _ _ (part 5),
        without-separator b'-' _ _ (part 10),
        without-absent b'-' _ (part 15),
      )
      (regroup raw n)

-- A character of the alphabet of recovery codes: upper case, no white space, and no separator.
abbrev pub IsCodeChar : Unicode → ℕ → Type 0
IsCodeChar u c = (u.is_space c ≡ false) × (u.upper c ≡ c ∷ []) × (c ≢ b'-') × (c ≢ b' ')

normalize-of :
    (lib : Library) (typed raw : Text)
    → All (λ c. lib.unicode.is_space c ≡ false) typed
    → All (λ c. lib.unicode.upper c ≡ c ∷ []) typed
    → without b'-' typed ≡ raw
    → All (λ c. c ≢ b' ') raw
    → normalize_recovery_code lib typed ≡ raw
unfolding normalize_recovery_code
normalize-of lib typed raw ink up e h =
    rw (strip-ink lib.unicode typed ink, to_upper-fixed lib.unicode typed up, e)
      (without-absent b' ' raw h)

-- A recovery code of twenty characters, each its own upper case and no space or dash, normalizes to
-- these characters, typed as it was shown or without its dashes, so both have the same digest.
pub normalize-group_code :
    (lib : Library) (raw : Text)
    → lib.unicode.is_space b'-' ≡ false
    → lib.unicode.upper b'-' ≡ b'-' ∷ []
    → All (IsCodeChar lib.unicode) raw
    → length raw ≡ 20
    → (normalize_recovery_code lib (group_code raw) ≡ raw)
      × (normalize_recovery_code lib raw ≡ raw)
      × (hash_recovery_code lib (group_code raw) ≡ hash_recovery_code lib raw)
unfolding normalize_recovery_code hash_recovery_code
normalize-group_code lib raw dash up h n =
    let grouped =
      normalize-of lib (group_code raw) raw
        (All-group_code _ raw dash (All-map _ _ (λ c k. k.0) raw h))
        (All-group_code _ raw up (All-map _ _ (λ c k. k.1) raw h))
        (without-group_code raw (All-map _ _ (λ c k. k.2) raw h) n)
        (All-map _ _ (λ c k. k.3) raw h) in
    let plain =
      normalize-of lib raw raw (All-map _ _ (λ c k. k.0) raw h) (All-map _ _ (λ c k. k.1) raw h)
        (without-absent b'-' raw (All-map _ _ (λ c k. k.2) raw h))
        (All-map _ _ (λ c k. k.3) raw h) in
    (grouped, plain, ap (λ x. lib.sha256_hex (lib.utf8 x)) (grouped ∙ sym plain))
