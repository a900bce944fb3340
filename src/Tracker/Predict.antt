-- ===== src/Tracker/Predict.antt =====
-- The predictions of a fitted line: no panic, and how far they leave the centroid.
use native.Mathlib.Nat.{mul-le-mul_left}
use esp_clock_sync.Prelude.{ℕ, suc, ◌+◌, ◌*◌, ◌/◌, ◌^◌, ◌≤◌, ◌≡◌, some, arith, ret}
use esp_clock_sync.Prelude.Int.{
  ℤ, pos, negsuc, pos_part, neg_part, ◌+ℤ◌, ◌-ℤ◌, ◌*ℤ◌, abs, shr, -ℤ_parts, +ℤ_parts,
  parts_exclusive,
}
use esp_clock_sync.Prelude.Words.{FitsI, checked_i-ret, wrap_i-fits}
use esp_clock_sync.Tracker.{Tracker, on_line, predict}

-- A slope within the clamp of `refit`.
abbrev pub IsClamped : ℤ → Type 0
IsClamped a = (pos_part a ≤ 2 ^ 31) × (neg_part a ≤ 2 ^ 31)

times_le : (m n k : ℕ) → n ≤ k → m * n ≤ m * k
times_le m n k h = mul-le-mul_left m h

mul_bounds :
    (a b : ℤ)
    → IsClamped b
    → (pos_part (a *ℤ b) ≤ abs a * 2 ^ 31) × (neg_part (a *ℤ b) ≤ abs a * 2 ^ 31)
unfolding ◌*ℤ◌
mul_bounds (pos m) (pos n) h = ground (arith, times_le m n (2 ^ 31) (omega arith))
mul_bounds (pos m) (negsuc n) h = ground (arith, times_le m (suc n) (2 ^ 31) (omega arith))
mul_bounds (negsuc m) (pos n) h = ground (arith, times_le (suc m) n (2 ^ 31) (omega arith))
mul_bounds (negsuc m) (negsuc n) h = ground (arith, times_le (suc m) (suc n) (2 ^ 31) (omega arith))

shr_half :
    (a : ℤ) (m : ℕ)
    → pos_part a ≤ m * 2 ^ 31
    → neg_part a ≤ m * 2 ^ 31
    → (pos_part (shr 32 a) ≤ m / 2) × (neg_part (shr 32 a) ≤ (m + 1) / 2)
unfolding shr
shr_half (pos n) m p q = (omega arith, omega arith)
shr_half (negsuc n) m p q = (omega arith, omega arith)

-- From eight samples on a prediction ends with no panic and with an answer, for times and a centroid
-- of 62 bits and a slope within the clamp of `refit`, and it is no further from the centroid's value
-- than half the distance from the centroid's time.
pub predict_near :
    (t : Tracker) (x : ℤ)
    → 8 ≤ t.n
    → IsClamped t.slope_q32
    → FitsI 62 x
    → FitsI 62 t.mean_x
    → FitsI 62 t.mean_y
    → (y : ℤ) × (predict t x ≡ ret (some y)) × (abs (y -ℤ t.mean_y) ≤ (abs (x -ℤ t.mean_x) + 1) / 2)
unfolding predict on_line
predict_near t x k slope hx hm hy =
    let dx = x -ℤ t.mean_x in
    let d = -ℤ_parts x t.mean_x in
    let e = parts_exclusive (x -ℤ t.mean_x) in
    let m = mul_bounds (x -ℤ t.mean_x) t.slope_q32 slope in
    let r = shr_half ((x -ℤ t.mean_x) *ℤ t.slope_q32) (abs (x -ℤ t.mean_x)) m.0 m.1 in
    let rise = shr 32 ((x -ℤ t.mean_x) *ℤ t.slope_q32) in
    let s = +ℤ_parts t.mean_y rise in
    let u = parts_exclusive (t.mean_y +ℤ rise) in
    let f = parts_exclusive rise in
    let w = -ℤ_parts (t.mean_y +ℤ rise) t.mean_y in
    let z = parts_exclusive (t.mean_y +ℤ rise -ℤ t.mean_y) in
    (
      t.mean_y +ℤ rise,
      rw
          (
            checked_i-ret 128 (x -ℤ t.mean_x) (omega arith, omega arith),
            checked_i-ret 128 ((x -ℤ t.mean_x) *ℤ t.slope_q32) (omega arith, omega arith),
            checked_i-ret 128 (t.mean_y +ℤ rise) (omega arith, omega arith),
            wrap_i-fits 64 (t.mean_y +ℤ rise) (omega arith) (omega arith, omega arith),
          )
          (ground arith),
      omega arith,
    )
