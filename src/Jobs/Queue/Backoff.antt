-- ===== src/Jobs/Queue/Backoff.antt =====
-- The delay before a retry.
use counselready.Common.{
  ℕ, ◌-◌, ◌*◌, ◌^◌, ◌≤◌, min, ◌≡◌, refl, arith, if◌then◌else◌, Bool-cases, inl, inr, leb, leb→le,
  ltb, ◌∙◌,
}
use native.Mathlib.Nat.{pow-le-pow_right}
use counselready.Jobs.Queue.{backoff_for, backoff_base, backoff_cap}

min_by_test : (a b : ℕ) → (if ltb a b then a else b) ≡ min a b
min_by_test a b = ground arith

doubles : {i j : ℕ} → i ≤ j → 2 ^ i ≤ 2 ^ j
doubles h = pow-le-pow_right (omega arith) h

-- Past six doublings the cap is all that shows.
capped : (n : ℕ) → 6 ≤ n → 1800 ≤ 30 * 2 ^ n
capped n h = omega (arith, doubles h)

-- The clamp changes no delay.
clamped : (n : ℕ) → min (30 * 2 ^ min n 16) 1800 ≡ min (30 * 2 ^ n) 1800
clamped n = elim (Bool-cases (leb n 16)) [
  | inl small ↦ let e : min n 16 ≡ n = omega (arith, leb→le n 16 small) in rw e refl
  | inr large ↦
      let above : 16 ≤ n = ground arith in
      let e : min n 16 ≡ 16 = omega arith in
      rw e (omega (arith, capped 16 (omega arith), capped n (omega arith)))
]

-- The delay is the doubled base or the cap, whichever is less: clamping the doublings before the
-- shift changes no delay.
pub backoff_for_exact : (attempts : ℕ) → backoff_for attempts ≡ min (30 * 2 ^ (attempts - 1)) 1800
unfolding backoff_for
backoff_for_exact attempts =
    min_by_test (30 * 2 ^ min (attempts - 1) 16) 1800 ∙ clamped (attempts - 1)

-- The delay never falls as the attempts go up, and lies between the base and the cap.
pub backoff_for_grows :
    (a b : ℕ)
    → a ≤ b
    → (backoff_base ≤ backoff_for a)
      × (backoff_for a ≤ backoff_for b)
      × (backoff_for b ≤ backoff_cap)
backoff_for_grows a b h =
    let up : 2 ^ (a - 1) ≤ 2 ^ (b - 1) = doubles {i = a - 1} {j = b - 1} (omega arith) in
    let low : 2 ^ 0 ≤ 2 ^ (a - 1) = doubles {i = 0} {j = a - 1} (omega arith) in
    rw (backoff_for_exact a, backoff_for_exact b) (omega arith, omega arith, omega arith)
