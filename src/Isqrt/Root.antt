-- ===== src/Isqrt/Root.antt =====
-- The loop ends at the floor of the square root, with no overflow below the largest u128.
use mathlib.Core.Logic.{dif_pos, dif_neg}
use mathlib.Core.WellFounded.{Acc}
use native.Mathlib.Nat.{mul-le-mul, le-div_iff_mul-le, lt-mul-div-succ, mul-div-le, div_self}
use native.Mathlib.Bridge.{le_prop}
use esp_clock_sync.Prelude.{
  ℕ, zero, suc, ◌+◌, ◌-◌, ◌*◌, ◌/◌, ◌^◌, ◌≤◌, ◌<◌, ◌≡◌, refl, arith, dec_lt, dec_le, ret, ltb,
  Bool-cases, inl, inr,
}
use esp_clock_sync.Prelude.Words.{checked_u-ret}
use esp_clock_sync.Prelude.Order.{lt_wf}
use esp_clock_sync.Isqrt.{div_u, isqrt_loop, isqrt_u128}

square_of_sum : (a d : ℕ) → 4 * (a * (a + d)) ≤ (a + (a + d)) * (a + (a + d))
square_of_sum a d = omega arith

four_mul_ordered : (a b : ℕ) → a ≤ b → 4 * (a * b) ≤ (a + b) * (a + b)
four_mul_ordered a b h = let e : a + (b - a) ≡ b = omega arith in rw e at (square_of_sum a (b - a))

four_mul-le-square : (a b : ℕ) → 4 * (a * b) ≤ (a + b) * (a + b)
four_mul-le-square a b = elim (dec_le a b) [
  | yes h ↦ four_mul_ordered a b h
  | no h ↦ omega (arith, four_mul_ordered b a (omega arith))
]

lt_square : (n a b s : ℕ) → n < a * b → a + b ≤ 2 * s → n < s * s
lt_square n a b s h le = omega (arith, four_mul-le-square a b, mul-le-mul le le)

-- One step of the iteration from any `x` never falls below the root.
newton_step : (n x : ℕ) → 0 < x → n < ((x + n / x) / 2 + 1) * ((x + n / x) / 2 + 1)
newton_step n x h = lt_square n x (n / x + 1) _ (lt-mul-div-succ n h) (omega arith)

sum-le-product : (a b : ℕ) → 0 < a → 0 < b → a + b ≤ a * b + 1
sum-le-product zero b ha hb = absurd (omega arith)
sum-le-product (suc a) zero ha hb = absurd (omega arith)
sum-le-product (suc a) (suc b) ha hb = omega arith

quotient_pos : (n x : ℕ) → 0 < x → x ≤ n → 0 < n / x
quotient_pos n x hx hn = (le-div_iff_mul-le hx).1 (omega arith)

newton_fits : (n y : ℕ) → 0 < y → y ≤ n → y + n / y ≤ n + 1
newton_fits n y hy hn =
    omega (arith, sum-le-product y (n / y) hy (quotient_pos n y hy hn), mul-div-le n y)

root_of_stop : (n x : ℕ) → 0 < x → x ≤ (x + n / x) / 2 → x * x ≤ n
root_of_stop n x h stop = (le-div_iff_mul-le h).0 (omega arith)

isqrt_loop-IsRoot :
    (n x y : ℕ) (w : Acc ◌<◌ x)
    → n < 2 ^ 128 - 1
    → 0 < x
    → x ≤ n
    → y ≡ (x + n / x) / 2
    → n < (x + 1) * (x + 1)
    → (r : ℕ) × (isqrt_loop n x y w ≡ ret r) × (r * r ≤ n) × (n < (r + 1) * (r + 1))
unfolding isqrt_loop
isqrt_loop-IsRoot n x y (Acc.intro _ smaller) fits hx hn e above = elim (dec_lt y x) [
  | yes h ↦
      let hy : 0 < y = omega (arith, quotient_pos n x hx hn) in
      let (r, runs, below, root) =
        isqrt_loop-IsRoot n y ((y + n / y) / 2) (smaller y h) fits hy (omega arith) refl
          (rw (← e) at (newton_step n x hx)) in
      let sum = checked_u-ret 128 (y + n / y) (omega (arith, newton_fits n y hy (omega arith))) in
      (r, rw (dif_pos _ le_prop h) (ground (arith, sum, runs)), below, root)
  | no h ↦ (x, rw (dif_neg _ h) refl, root_of_stop n x hx (omega arith), above)
]

small_square : (n : ℕ) → n < 2 → n * n ≤ n
small_square n h = grind arith

pub div_u-ret : (a k : ℕ) → 0 < k → div_u a k ≡ ret (a / k)
div_u-ret a k h = ground arith

-- Below the largest u128 the root is computed with no panic, and it is the floor of the square
-- root.
pub isqrt_u128-IsRoot :
    (n : ℕ)
    → n < 2 ^ 128 - 1
    → (r : ℕ) × (isqrt_u128 n ≡ ret r) × (r * r ≤ n) × (n < (r + 1) * (r + 1))
unfolding isqrt_u128
isqrt_u128-IsRoot n fits = elim (Bool-cases (ltb n 2)) [
  | inl small ↦ (n, rw small refl, ground (arith, small_square n), omega arith)
  | inr large ↦
      let positive : 0 < n = ground arith in
      let runs =
        isqrt_loop-IsRoot n n ((n + 1) / 2) (lt_wf.apply n) fits positive (omega arith)
          (rw (div_self positive)) (omega arith) in
      let sum = checked_u-ret 128 (n + 1) (omega arith) in
      (runs.0, rw (large, sum) runs.1, runs.2, runs.3)
]
