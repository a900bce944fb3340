-- ===== src/Estimator/Residuals.antt =====
-- The third loop of `refit`: the squares of the residuals.
use native.Mathlib.Nat.{mul-le-mul, div-le_of_le-mul}
use esp_clock_sync.Prelude.{
  ℕ, ◌+◌, ◌-◌, ◌*◌, ◌/◌, ◌^◌, ◌≤◌, ◌<◌, ◌≡◌, sym, ap, ◌∙◌, List, [], ◌∷◌, arith, length, All, ret,
  ltb, Bool-cases, inl, inr,
}
use esp_clock_sync.Prelude.Int.{ℤ, pos_part, neg_part, ◌-ℤ◌, abs, -ℤ_parts, parts_exclusive}
use esp_clock_sync.Prelude.Words.{
  checked_i-ret, checked_u-ret, saturate_u, saturate_u-fits, saturate_u-FitsU, saturate_u_sum,
  saturate_u_le,
}
use esp_clock_sync.Estimator.{Sample, sum_squares}
use esp_clock_sync.Estimator.Offsets.{InRange, offset_of, offset_of_bounds, sample_offset-ret}

-- The residual of a sample in µs, rounded down.
abbrev pub residual_us : ℤ → Sample → ℕ
residual_us mean s = abs (offset_of s -ℤ mean) / 1_000

unfoldable pub square_total : ℤ → List Sample → ℕ
square_total mean [] = 0
square_total mean (s ∷ ss) = residual_us mean s * residual_us mean s + square_total mean ss

-- A mean that the offsets of samples in range can have.
abbrev pub IsNear : ℤ → Type 0
IsNear mean = (pos_part mean ≤ 2 ^ 72) × (neg_part mean ≤ 2 ^ 72)

residual_fits :
    (mean : ℤ) (s : Sample) → InRange s → IsNear mean → abs (offset_of s -ℤ mean) < 2 ^ 73 + 1
residual_fits mean s h near = omega (
  arith,
  offset_of_bounds s h,
  -ℤ_parts (offset_of s) mean,
  parts_exclusive (offset_of s -ℤ mean),
)

pub sum_squares-ret :
    (mean : ℤ) (ss : List Sample) (sum : ℕ)
    → All InRange ss
    → IsNear mean
    → sum < 2 ^ 128
    → sum_squares mean ss sum ≡ ret (saturate_u 128 (sum + square_total mean ss))
unfolding sum_squares square_total
sum_squares-ret mean [] sum h near fits =
    ap ret (sym (saturate_u-fits 128 (sum + 0) (omega arith) ∙ omega arith))
sum_squares-ret mean (s ∷ ss) sum h near fits =
    let r = residual_us mean s in
    let bound = residual_fits mean s h.0 near in
    let small : r ≤ 2 ^ 64 - 1 = omega arith in
    let square = mul-le-mul small small in
    rw
      (
        sample_offset-ret s h.0,
        checked_i-ret 128 (offset_of s -ℤ mean) (omega arith),
        checked_u-ret 128 (r * r) (omega arith),
        sum_squares-ret mean ss (saturate_u 128 (sum + r * r)) h.1 near (saturate_u-FitsU 128 _),
        saturate_u_sum 128 (sum + r * r) (square_total mean ss),
      )
      (ap (λ t. ret (saturate_u 128 t)) (omega arith))

pub square_total-le :
    (mean : ℤ) (r : ℕ) (ss : List Sample)
    → All (λ s. residual_us mean s ≤ r) ss
    → square_total mean ss ≤ length ss * (r * r)
unfolding square_total
square_total-le mean r [] h = omega arith
square_total-le mean r (s ∷ ss) h = omega (arith, square_total-le mean r ss h.1, mul-le-mul h.0 h.0)

-- A root whose square is at most the mean square of the residuals is at most a bound of them.
pub root_le :
    (mean : ℤ) (ss : List Sample) (root r : ℕ)
    → root * root ≤ saturate_u 128 (square_total mean ss) / length ss
    → All (λ s. residual_us mean s ≤ r) ss
    → root ≤ r
root_le mean ss root r h k = elim (Bool-cases (ltb r root)) [
  | inl above ↦
      let less : r + 1 ≤ root = ground arith in
      let square = mul-le-mul less less in
      let sum = square_total-le mean r ss k in
      let cut = saturate_u_le 128 (square_total mean ss) in
      let total : saturate_u 128 (square_total mean ss) ≤ length ss * (r * r) = omega arith in
      let mean_square = div-le_of_le-mul (length ss) total in absurd (omega arith)
  | inr below ↦ ground arith
]
