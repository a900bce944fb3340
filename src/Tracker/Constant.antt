-- ===== src/Tracker/Constant.antt =====
-- The tracker on a constant value.
use native.Mathlib.Nat.{mul-div_cancel_left, zero-div}
use esp_clock_sync.Prelude.Words.{shl}
use esp_clock_sync.Prelude.{
  ℕ, zero, suc, ◌*◌, ◌/◌, ◌^◌, ◌≤◌, ◌<◌, ◌≡◌, refl, ap, ◌∙◌, false, true, List, [], ◌∷◌, arith,
  length, somes, All, Bool-cases, inl, inr, ret,
}
use esp_clock_sync.Prelude.Int.{
  ℤ, pos, negsuc, pos_part, neg_part, ◌+ℤ◌, ◌-ℤ◌, ◌*ℤ◌, quot, abs, eqb_ℤ, int_laws, +ℤ_parts,
  -ℤ_parts, parts_exclusive, eq_of_parts, quot_pos_parts, -ℤ_self, quot-pos, clamp,
}
use esp_clock_sync.Tracker.{Tracker, Sample, refit}
use esp_clock_sync.Tracker.Fit.{InRange, total_dx, total_y}
use esp_clock_sync.Tracker.Moments.{
  from_mean_x, total_num, total_den, total_den_nonneg, square_nonneg,
}
use esp_clock_sync.Tracker.Line.{IsLine, IsRefit, slope_of, line_of}
use esp_clock_sync.Tracker.Refit.{refit-line_of}

-- All values are `c`, and not all times are one.
abbrev pub IsConstant : ℤ → List Sample → Type 0
IsConstant c ss = All (λ s. s.1 ≡ c) ss

abbrev pub IsSpread : List Sample → Type 0
IsSpread ss = (x : ℤ) → ¬ All (λ s. s.0 ≡ x) ss

total_y_parts :
    (c : ℤ) (ss : List Sample)
    → IsConstant c ss
    → (pos_part (total_y ss) ≡ length ss * pos_part c)
      × (neg_part (total_y ss) ≡ length ss * neg_part c)
unfolding total_y
total_y_parts c [] h = (omega arith, omega arith)
total_y_parts c (s ∷ ss) h =
    let (p, n) = total_y_parts c ss h.1 in
    let sum = +ℤ_parts c (total_y ss) in
    let y = parts_exclusive (c +ℤ total_y ss) in
    let x = parts_exclusive c in rw h.0 (grind arith, grind arith)

-- The mean of a constant is that constant.
mean_y-c :
    (c : ℤ) (ss : List Sample)
    → IsConstant c ss
    → 0 < length ss
    → quot (total_y ss) (pos (length ss)) ≡ c
mean_y-c c ss h some_in =
    let (p, n) = total_y_parts c ss h in
    let (qp, qn) = quot_pos_parts (total_y ss) (length ss) in
    let cp : length ss * pos_part c / length ss ≡ pos_part c =
      mul-div_cancel_left (pos_part c) some_in in
    let cn : length ss * neg_part c / length ss ≡ neg_part c =
      mul-div_cancel_left (neg_part c) some_in in
    let a : pos_part (quot (total_y ss) (pos (length ss))) ≡ pos_part c =
      qp ∙ ap (λ m. m / length ss) p ∙ cp in
    let b : neg_part (quot (total_y ss) (pos (length ss))) ≡ neg_part c =
      qn ∙ ap (λ m. m / length ss) n ∙ cn in
    eq_of_parts (quot (total_y ss) (pos (length ss))) c (omega arith)

pub times_zero : (a : ℤ) → a *ℤ pos 0 ≡ pos 0
unfolding ◌*ℤ◌
times_zero (pos n) = ground arith
times_zero (negsuc n) = ground arith

total_num-zero :
    (anchor_x mean_dx c : ℤ) (ss : List Sample)
    → IsConstant c ss
    → total_num anchor_x mean_dx c ss ≡ pos 0
unfolding total_num
total_num-zero anchor_x mean_dx c [] h = refl
total_num-zero anchor_x mean_dx c (s ∷ ss) h =
    rw
      (
        h.0,
        -ℤ_self c,
        times_zero (from_mean_x anchor_x mean_dx s),
        total_num-zero anchor_x mean_dx c ss h.1,
      )
      (omega int_laws)

square_zero : (a : ℤ) → pos_part (a *ℤ a) ≡ 0 → a ≡ pos 0
unfolding ◌*ℤ◌
square_zero (pos zero) h = refl
square_zero (pos (suc n)) h = absurd (grind arith)
square_zero (negsuc n) h = absurd (grind arith)

total_den-zero :
    (anchor_x mean_dx : ℤ) (ss : List Sample)
    → pos_part (total_den anchor_x mean_dx ss) ≡ 0
    → All (λ s. s.0 ≡ anchor_x +ℤ mean_dx) ss
unfolding total_den
total_den-zero anchor_x mean_dx [] h = tt
total_den-zero anchor_x mean_dx (s ∷ ss) h =
    let d = from_mean_x anchor_x mean_dx s in
    let sum =
      +ℤ_parts (from_mean_x anchor_x mean_dx s *ℤ from_mean_x anchor_x mean_dx s)
        (total_den anchor_x mean_dx ss) in
    let a = square_nonneg (from_mean_x anchor_x mean_dx s) in
    let b = total_den_nonneg anchor_x mean_dx ss in
    let zero_here = square_zero (from_mean_x anchor_x mean_dx s) (omega arith) in
    let p = -ℤ_parts s.0 anchor_x in
    let q = -ℤ_parts (s.0 -ℤ anchor_x) mean_dx in
    let r = +ℤ_parts anchor_x mean_dx in
    let x = parts_exclusive (s.0 -ℤ anchor_x) in
    let e = ap pos_part zero_here in
    let f = ap neg_part zero_here in
    (
      eq_of_parts s.0 (anchor_x +ℤ mean_dx) (omega arith),
      total_den-zero anchor_x mean_dx ss (omega arith),
    )

eqb_zero-pos_part : (a : ℤ) → eqb_ℤ a (pos 0) ≡ true → pos_part a ≡ 0
eqb_zero-pos_part (pos n) h = ground arith
eqb_zero-pos_part (negsuc n) h = refl

pub total_den-wide :
    (anchor_x mean_dx : ℤ) (ss : List Sample)
    → IsSpread ss
    → eqb_ℤ (total_den anchor_x mean_dx ss) (pos 0) ≡ false
total_den-wide anchor_x mean_dx ss spread =
    elim (Bool-cases (eqb_ℤ (total_den anchor_x mean_dx ss) (pos 0))) [
      | inl flat ↦ absurd (
          spread (anchor_x +ℤ mean_dx) (
            total_den-zero anchor_x mean_dx ss
              (eqb_zero-pos_part (total_den anchor_x mean_dx ss) flat)))
      | inr wide ↦ wide
    ]

slope_of-zero : (d : ℕ) → slope_of (pos 0 +ℤ pos 0) d ≡ pos 0
unfolding clamp shl ◌+ℤ◌ quot ◌*ℤ◌
slope_of-zero d = rw (quot-pos 0 d, zero-div d) refl

-- The line of a constant.
pub record IsFlat (t : Tracker) (c : ℤ) : Type 0 where
  pub slope : t.slope_q32 ≡ pos 0
  pub mean_y : t.mean_y ≡ c

-- On eight samples or more of one value, not all at one time, `refit` stores a line of slope 0 through
-- that value.
pub refit-IsFlat :
    (t : Tracker) (c : ℤ)
    → IsLine t
    → abs t.last_x < 2 ^ 56
    → All InRange (somes t.samples)
    → length (somes t.samples) ≤ 256
    → 8 ≤ length (somes t.samples)
    → IsConstant c (somes t.samples)
    → IsSpread (somes t.samples)
    → (t' : Tracker) × (refit t ≡ ret t') × IsRefit t t' × IsFlat t' c
unfolding line_of
refit-IsFlat t c v ha h few many constant spread =
    let ss = somes t.samples in
    let mean_dx = quot (total_dx t.last_x (somes t.samples)) (pos (length (somes t.samples))) in
    let mean_y = quot (total_y (somes t.samples)) (pos (length (somes t.samples))) in
    let (d, runs, is, at_d) =
      refit-line_of t v ha h few many (total_den-wide t.last_x mean_dx (somes t.samples) spread) in
    let at_c : mean_y ≡ c = mean_y-c c (somes t.samples) constant (omega arith) in
    let zero_num = total_num-zero t.last_x mean_dx c (somes t.samples) constant in
    (
      line_of t mean_dx mean_y (pos 0 +ℤ total_num t.last_x mean_dx mean_y (somes t.samples)) d,
      runs,
      is,
      record { slope = rw (at_c, zero_num) (slope_of-zero d); mean_y = at_c },
    )
