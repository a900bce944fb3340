-- ===== src/Tracker/Moments.antt =====
-- The second loop of `refit` on samples in range: no panic, and its sums.
use esp_clock_sync.Prelude.{
  ℕ, ◌+◌, ◌*◌, ◌^◌, ◌≤◌, ◌<◌, ◌≡◌, refl, ap₂, List, [], ◌∷◌, arith, length, All, ret,
}
use esp_clock_sync.Prelude.Int.{ℤ, pos, negsuc, neg_part, ◌+ℤ◌, ◌-ℤ◌, ◌*ℤ◌, abs, int_laws, +ℤ_parts}
use esp_clock_sync.Prelude.Words.{checked_i-ret}
use esp_clock_sync.Tracker.{Sample, moments}
use esp_clock_sync.Tracker.Fit.{InRange, abs_add, abs_sub, abs_mul_le}

-- How far a sample is from the centroid.
abbrev pub from_mean_x : ℤ → ℤ → Sample → ℤ
from_mean_x anchor_x mean_dx s = s.0 -ℤ anchor_x -ℤ mean_dx

-- The sums of the second loop.
unfoldable pub total_num : ℤ → ℤ → ℤ → List Sample → ℤ
total_num anchor_x mean_dx mean_y [] = pos 0
total_num anchor_x mean_dx mean_y (s ∷ ss) =
    from_mean_x anchor_x mean_dx s *ℤ (s.1 -ℤ mean_y) +ℤ total_num anchor_x mean_dx mean_y ss

unfoldable pub total_den : ℤ → ℤ → List Sample → ℤ
total_den anchor_x mean_dx [] = pos 0
total_den anchor_x mean_dx (s ∷ ss) =
    from_mean_x anchor_x mean_dx s *ℤ from_mean_x anchor_x mean_dx s
    +ℤ total_den anchor_x mean_dx ss

pub square_nonneg : (a : ℤ) → neg_part (a *ℤ a) ≡ 0
unfolding ◌*ℤ◌
square_nonneg (pos n) = ground arith
square_nonneg (negsuc n) = ground arith

pub total_den_nonneg :
    (anchor_x mean_dx : ℤ) (ss : List Sample) → neg_part (total_den anchor_x mean_dx ss) ≡ 0
unfolding total_den
total_den_nonneg anchor_x mean_dx [] = refl
total_den_nonneg anchor_x mean_dx (s ∷ ss) =
    let d = from_mean_x anchor_x mean_dx s in
    omega (
      arith,
      total_den_nonneg anchor_x mean_dx ss,
      square_nonneg (from_mean_x anchor_x mean_dx s),
      +ℤ_parts (from_mean_x anchor_x mean_dx s *ℤ from_mean_x anchor_x mean_dx s)
          (total_den anchor_x mean_dx ss),
    )

module _ (anchor_x mean_dx mean_y : ℤ) (ha : abs anchor_x < 2 ^ 56) (hd : abs mean_dx ≤ 2 ^ 57)
    (hy : abs mean_y ≤ 2 ^ 56) where
  from_mean_x_bound : (s : Sample) → InRange s → abs (from_mean_x anchor_x mean_dx s) ≤ 2 ^ 58
  from_mean_x_bound s h =
      let a = abs_sub s.0 anchor_x in let b = abs_sub (s.0 -ℤ anchor_x) mean_dx in omega arith

  pub moments-ret :
      (ss : List Sample) (num den : ℤ) (k : ℕ)
      → All InRange ss
      → abs num ≤ k * 2 ^ 115
      → abs den ≤ k * 2 ^ 116
      → k + length ss ≤ 256
      → moments anchor_x mean_dx mean_y ss num den
        ≡ ret (num +ℤ total_num anchor_x mean_dx mean_y ss, den +ℤ total_den anchor_x mean_dx ss)
  unfolding moments total_num total_den
  moments-ret [] num den k h p q len =
      let a : num +ℤ pos 0 ≡ num = omega int_laws in
      let b : den +ℤ pos 0 ≡ den = omega int_laws in rw (a, b) refl
  moments-ret (s ∷ ss) num den k h p q len =
      let x = from_mean_x anchor_x mean_dx s in
      let y = s.1 -ℤ mean_y in
      let here = h.0 in
      let bx = from_mean_x_bound s h.0 in
      let ba = abs_sub s.0 anchor_x in
      let by : abs (s.1 -ℤ mean_y) ≤ 2 ^ 57 = omega (arith, abs_sub s.1 mean_y) in
      let xy =
        abs_mul_le (from_mean_x anchor_x mean_dx s) (s.1 -ℤ mean_y) (2 ^ 58) (2 ^ 57) bx by in
      let xx =
        abs_mul_le (from_mean_x anchor_x mean_dx s) (from_mean_x anchor_x mean_dx s) (2 ^ 58)
          (2 ^ 58) bx bx in
      let en = abs_add num (from_mean_x anchor_x mean_dx s *ℤ (s.1 -ℤ mean_y)) in
      let ed = abs_add den (from_mean_x anchor_x mean_dx s *ℤ from_mean_x anchor_x mean_dx s) in
      rw
        (
          checked_i-ret 128 (s.0 -ℤ anchor_x) (omega arith, omega arith),
          checked_i-ret 128 (from_mean_x anchor_x mean_dx s) (omega arith, omega arith),
          checked_i-ret 128 (s.1 -ℤ mean_y) (omega arith, omega arith),
          checked_i-ret 128 (from_mean_x anchor_x mean_dx s *ℤ (s.1 -ℤ mean_y))
              (omega arith, omega arith),
          checked_i-ret 128 (num +ℤ from_mean_x anchor_x mean_dx s *ℤ (s.1 -ℤ mean_y))
              (omega arith, omega arith),
          checked_i-ret 128 (from_mean_x anchor_x mean_dx s *ℤ from_mean_x anchor_x mean_dx s)
              (omega arith, omega arith),
          checked_i-ret 128
              (den +ℤ from_mean_x anchor_x mean_dx s *ℤ from_mean_x anchor_x mean_dx s)
              (omega arith, omega arith),
          moments-ret ss (num +ℤ from_mean_x anchor_x mean_dx s *ℤ (s.1 -ℤ mean_y))
              (den +ℤ from_mean_x anchor_x mean_dx s *ℤ from_mean_x anchor_x mean_dx s) (k + 1) h.1
              (omega arith) (omega arith) (omega arith),
        )
        (ap₂ (λ a b. ret (a, b)) (omega int_laws) (omega int_laws))
