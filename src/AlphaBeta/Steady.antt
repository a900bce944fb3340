-- ===== src/AlphaBeta/Steady.antt =====
-- On a constant offset the filter is exact from its first observation on.
use esp_clock_sync.Prelude.{
  ℕ, ◌-◌, ◌*◌, ◌^◌, ◌<◌, ◌≡◌, refl, ap, true, List, [], ◌∷◌, some, arith, Bool-cases, inl, inr,
  Exec, ret, ◌>>=◌,
}
use esp_clock_sync.Prelude.Int.{
  ℤ, pos, negsuc, pos_part, neg_part, ◌+ℤ◌, ◌-ℤ◌, ◌*ℤ◌, shr, quot, clamp_inside, leb_ℤ, int_laws,
  -ℤ_self, *ℤ_pos_parts, pos_of_nonneg,
}
use esp_clock_sync.Prelude.Words.{
  FitsI, shl, wrap_i-fits, saturate_i-fits, checked_i-ret, div_i-ret,
}
use esp_clock_sync.AlphaBeta.{AlphaBeta, new, observe, predict, extrapolate, correct}

shl_fits : (a : ℤ) → FitsI 64 a → shl 128 20 a ≡ a *ℤ pos (2 ^ 20)
unfolding shl
shl_fits a h = let p = *ℤ_pos_parts a (2 ^ 20) in wrap_i-fits 128 _ (omega arith) (omega arith)

shr-*ℤ : (a : ℤ) → shr 20 (a *ℤ pos (2 ^ 20)) ≡ a
unfolding shr ◌*ℤ◌
shr-*ℤ (pos n) = ground arith
shr-*ℤ (negsuc n) = ground arith

-- The filter has been seeded, its offset is `y` and its rate zero.
pub record AtRest (f : AlphaBeta) (y : ℤ) : Type 0 where
  pub seeded : f.initialized ≡ true
  pub offset : f.offset_q ≡ y *ℤ pos (2 ^ 20)
  pub rate : f.rate_q ≡ pos 0
  pub alpha_pos : 0 < f.alpha
  pub beta_pos : 0 < f.beta

zero_mul : (a : ℤ) → pos 0 *ℤ a ≡ pos 0
unfolding ◌*ℤ◌
zero_mul a = ground arith

shr_zero : shr 12 (pos 0) ≡ pos 0
unfolding shr
shr_zero = refl

add_zero : (a : ℤ) → a +ℤ pos 0 ≡ a
add_zero a = omega int_laws

extrapolate_rest :
    (f : AlphaBeta) (y dx : ℤ) → FitsI 64 y → AtRest f y → extrapolate f dx ≡ y *ℤ pos (2 ^ 20)
unfolding extrapolate
extrapolate_rest f y dx h r =
    let p = *ℤ_pos_parts y (2 ^ 20) in
    rw
      (
        r.offset,
        r.rate,
        zero_mul dx,
        saturate_i-fits 128 (pos 0) (omega arith),
        shr_zero,
        add_zero (y *ℤ pos (2 ^ 20)),
      )
      (saturate_i-fits 128 _ (omega arith))

pub predict_rest : (f : AlphaBeta) (y t : ℤ) → FitsI 64 y → AtRest f y → predict f t ≡ some y
unfolding predict
predict_rest f y t h r =
    rw
      (
        extrapolate_rest f y (t -ℤ f.last_x_us) h r,
        shr-*ℤ y,
        wrap_i-fits 64 y (omega arith) h,
        r.seeded,
      )
      refl

shl_zero : shl 128 12 (pos 0) ≡ pos 0
unfolding shl ◌*ℤ◌
shl_zero = wrap_i-fits 128 _ (omega arith) (omega arith)

quot_zero : (k : ℕ) → quot (pos 0) (pos k) ≡ pos 0
unfolding quot
quot_zero k = ground arith

correct_rest :
    (f : AlphaBeta) (x y : ℤ) (d : ℕ)
    → FitsI 64 y
    → AtRest f y
    → 0 < d
    → correct f x (pos d) y
      ≡ ret (record f { offset_q = y *ℤ pos (2 ^ 20); rate_q = pos 0; last_x_us = x })
unfolding correct
correct_rest f x y d h r hd =
    let p = *ℤ_pos_parts y (2 ^ 20) in
    let a = r.alpha_pos in
    let b = r.beta_pos in
    rw
      (
        extrapolate_rest f y (pos d) h r,
        shl_fits y h,
        -ℤ_self (y *ℤ pos (2 ^ 20)),
        checked_i-ret 128 (pos 0) (omega arith),
        clamp_inside (negsuc (1_000 * 2 ^ 20 - 1)) (pos (1_000 * 2 ^ 20)) (pos 0) (omega arith)
            (omega arith),
        div_i-ret 128 (pos 0) f.alpha (omega arith) (omega arith),
        quot_zero f.alpha,
        add_zero (y *ℤ pos (2 ^ 20)),
        checked_i-ret 128 (y *ℤ pos (2 ^ 20)) (omega arith),
        shl_zero,
        div_i-ret 128 (pos 0) d hd (omega arith),
        quot_zero d,
        div_i-ret 128 (pos 0) f.beta (omega arith) (omega arith),
        quot_zero f.beta,
        r.rate,
        add_zero (pos 0),
        saturate_i-fits 128 (pos 0) (omega arith),
      )
      refl

-- A later or an earlier observation of the same offset leaves the filter at rest.
observe_rest :
    (f : AlphaBeta) (x y : ℤ)
    → FitsI 64 y
    → AtRest f y
    → (f' : AlphaBeta) × (observe f x y ≡ ret f') × AtRest f' y
unfolding observe
observe_rest f x y h r = elim (Bool-cases (leb_ℤ (x -ℤ f.last_x_us) (pos 0))) [
  | inl stale ↦ (f, rw (stale, r.seeded) refl, r)
  | inr fresh ↦
      let (d, e) = pos_of_nonneg (x -ℤ f.last_x_us) (ground arith) in
      let hd : 0 < d = let p = ap pos_part e in let n = ap neg_part e in ground arith in
      (
        record f { offset_q = y *ℤ pos (2 ^ 20); rate_q = pos 0; last_x_us = x },
        rw (fresh, e, correct_rest f x y d h r hd, r.seeded) refl,
        record {
          seeded = r.seeded;
          offset = refl;
          rate = refl;
          alpha_pos = r.alpha_pos;
          beta_pos = r.beta_pos;
        },
      )
]

seed :
    (alpha beta : ℕ) (x y : ℤ)
    → 0 < alpha
    → 0 < beta
    → FitsI 64 y
    → (f : AlphaBeta) × (observe (new alpha beta) x y ≡ ret f) × AtRest f y
unfolding observe
seed alpha beta x y ha hb h = (
  _,
  refl,
  record { seeded = refl; offset = shl_fits y h; rate = refl; alpha_pos = ha; beta_pos = hb },
)

-- Observations of one offset at the times of a list.
pub observe_all : AlphaBeta → ℤ → List ℤ → Exec AlphaBeta
observe_all f y [] = ret f
observe_all f y (x ∷ xs) = observe f x y >>= λ f'. observe_all f' y xs

observe_all_rest :
    (xs : List ℤ) (f : AlphaBeta) (y : ℤ)
    → FitsI 64 y
    → AtRest f y
    → (f' : AlphaBeta) × (observe_all f y xs ≡ ret f') × AtRest f' y
unfolding observe_all
observe_all_rest [] f y h r = (f, refl, r)
observe_all_rest (x ∷ xs) f y h r =
    let (f', runs, r') = observe_rest f x y h r in
    let (f'', more, final) = observe_all_rest xs f' y h r' in (f'', rw runs more, final)

-- A filter with gains above zero that has observed one offset at one time or more, in any order of
-- the times, predicts exactly that offset at every time, with no panic on the way.
pub observe_all-predict :
    (alpha beta : ℕ) (x : ℤ) (xs : List ℤ) (y t : ℤ)
    → 0 < alpha
    → 0 < beta
    → FitsI 64 y
    → (f : AlphaBeta) × (observe_all (new alpha beta) y (x ∷ xs) ≡ ret f) × (predict f t ≡ some y)
unfolding observe_all
observe_all-predict alpha beta x xs y t ha hb h =
    let (f, runs, r) = seed alpha beta x y ha hb h in
    let (f', more, final) = observe_all_rest xs f y h r in
    (f', rw runs more, predict_rest f' y t h final)
