-- ===== src/Tracker/Fit.antt =====
-- The first loop of `refit` on samples in range: no panic, and its sums.
use native.Mathlib.Nat.{mul-le-mul, div-le_of_le-mul, div-le_self}
use esp_clock_sync.Prelude.{
  ℕ, suc, ◌+◌, ◌*◌, ◌^◌, ◌≤◌, ◌<◌, ◌≡◌, refl, List, [], ◌∷◌, arith, length, All, ret,
}
use esp_clock_sync.Prelude.Int.{
  ℤ, pos, negsuc, pos_part, neg_part, ◌+ℤ◌, ◌-ℤ◌, ◌*ℤ◌, quot, abs, int_laws, +ℤ_parts, -ℤ_parts,
  parts_exclusive, quot_pos_parts,
}
use esp_clock_sync.Prelude.Words.{checked_i-ret, checked_u-ret}
use esp_clock_sync.Tracker.{Sample, sums}

-- Both coordinates below 2^56 in size, some 2000 years in µs.
abbrev pub InRange : Sample → Type 0
InRange s = (abs s.0 < 2 ^ 56) × (abs s.1 < 2 ^ 56)

pub abs_add : (a b : ℤ) → abs (a +ℤ b) ≤ abs a + abs b
abs_add a b = let p = +ℤ_parts a b in let x = parts_exclusive (a +ℤ b) in omega arith

pub abs_sub : (a b : ℤ) → abs (a -ℤ b) ≤ abs a + abs b
abs_sub a b = let p = -ℤ_parts a b in let x = parts_exclusive (a -ℤ b) in omega arith

abs_mul : (a b : ℤ) → abs (a *ℤ b) ≡ abs a * abs b
unfolding ◌*ℤ◌
abs_mul (pos m) (pos n) = ground arith
abs_mul (pos m) (negsuc n) = ground arith
abs_mul (negsuc m) (pos n) = ground arith
abs_mul (negsuc m) (negsuc n) = ground arith

pub abs_mul_le : (a b : ℤ) (m n : ℕ) → abs a ≤ m → abs b ≤ n → abs (a *ℤ b) ≤ m * n
abs_mul_le a b m n h k = let p = mul-le-mul h k in let e = abs_mul a b in omega arith

-- The sums of the first loop.
unfoldable pub total_dx : ℤ → List Sample → ℤ
total_dx anchor_x [] = pos 0
total_dx anchor_x (s ∷ ss) = (s.0 -ℤ anchor_x) +ℤ total_dx anchor_x ss

unfoldable pub total_y : List Sample → ℤ
total_y [] = pos 0
total_y (s ∷ ss) = s.1 +ℤ total_y ss

pub total_dx_bound :
    (anchor_x : ℤ) (ss : List Sample)
    → abs anchor_x < 2 ^ 56
    → All InRange ss
    → abs (total_dx anchor_x ss) ≤ length ss * 2 ^ 57
unfolding total_dx
total_dx_bound anchor_x [] ha h = omega arith
total_dx_bound anchor_x (s ∷ ss) ha h =
    let here = h.0 in
    omega (
      arith,
      total_dx_bound anchor_x ss ha h.1,
      abs_sub s.0 anchor_x,
      abs_add (s.0 -ℤ anchor_x) (total_dx anchor_x ss),
    )

pub total_y_bound : (ss : List Sample) → All InRange ss → abs (total_y ss) ≤ length ss * 2 ^ 56
unfolding total_y
total_y_bound [] h = omega arith
total_y_bound (s ∷ ss) h =
    let here = h.0 in omega (arith, total_y_bound ss h.1, abs_add s.1 (total_y ss))

pub sums-ret :
    (anchor_x : ℤ) (ss : List Sample) (sum_dx sum_y : ℤ) (k : ℕ)
    → abs anchor_x < 2 ^ 56
    → All InRange ss
    → abs sum_dx ≤ k * 2 ^ 57
    → abs sum_y ≤ k * 2 ^ 56
    → k + length ss ≤ 256
    → sums anchor_x ss sum_dx sum_y k
      ≡ ret (sum_dx +ℤ total_dx anchor_x ss, sum_y +ℤ total_y ss, k + length ss)
unfolding sums total_dx total_y
sums-ret anchor_x [] sum_dx sum_y k ha h p q len =
    let a : sum_dx +ℤ pos 0 ≡ sum_dx = omega int_laws in
    let b : sum_y +ℤ pos 0 ≡ sum_y = omega int_laws in
    let c : k + 0 ≡ k = omega arith in rw (a, b, c) refl
sums-ret anchor_x (s ∷ ss) sum_dx sum_y k ha h p q len =
    let here = h.0 in
    let d = abs_sub s.0 anchor_x in
    let e = abs_add sum_dx (s.0 -ℤ anchor_x) in
    let f = abs_add sum_y s.1 in
    let a : sum_dx +ℤ ((s.0 -ℤ anchor_x) +ℤ total_dx anchor_x ss)
        ≡ (sum_dx +ℤ (s.0 -ℤ anchor_x)) +ℤ total_dx anchor_x ss =
      omega int_laws in
    let b : sum_y +ℤ (s.1 +ℤ total_y ss) ≡ (sum_y +ℤ s.1) +ℤ total_y ss = omega int_laws in
    let c : k + suc (length ss) ≡ (k + 1) + length ss = omega arith in
    rw
      (
        a,
        b,
        c,
        checked_i-ret 128 (s.0 -ℤ anchor_x) (omega arith, omega arith),
        checked_i-ret 128 (sum_dx +ℤ (s.0 -ℤ anchor_x)) (omega arith, omega arith),
        checked_i-ret 128 (sum_y +ℤ s.1) (omega arith, omega arith),
        checked_u-ret 127 (k + 1) (omega arith),
      )
      (sums-ret anchor_x ss (sum_dx +ℤ (s.0 -ℤ anchor_x)) (sum_y +ℤ s.1) (k + 1) ha h.1
        (omega arith) (omega arith) (omega arith))

pub mean_bound : (a : ℤ) (k m : ℕ) → 0 < k → abs a ≤ k * m → abs (quot a (pos k)) ≤ m
mean_bound a k m hk h =
    let q = quot_pos_parts a k in
    let x = parts_exclusive a in
    let p : pos_part a ≤ k * m = omega arith in
    let n : neg_part a ≤ k * m = omega arith in
    let pq = div-le_of_le-mul k p in
    let nq = div-le_of_le-mul k n in
    omega (arith, div-le_self (pos_part a) k, div-le_self (neg_part a) k)
