-- ===== src/Estimator/Fit.antt =====
-- `refit` on a window of samples in range: it ends with no panic, and what it stores.
use native.Mathlib.Nat.{mul-le-mul, zero-add, div-lt_iff_lt-mul}
use mathlib.Core.List.{Memᴰ}
use esp_clock_sync.Prelude.{
  ℕ, ◌+◌, ◌-◌, ◌*◌, ◌/◌, ◌%◌, ◌^◌, ◌≤◌, ◌<◌, ◌≡◌, refl, List, [], ◌∷◌, some, none, arith, min, ltb,
  length, somes, All, All-mem_self, All-map, All-zip, ret, inl, inr, Bool-cases,
}
use esp_clock_sync.Prelude.Int.{pos, pos_zero_add, negsuc, parts_exclusive}
use esp_clock_sync.Prelude.Words.{div_i-ret, saturate_u, saturate_u-FitsU, saturate_u-fits}
use esp_clock_sync.Isqrt.Root.{isqrt_u128-IsRoot, div_u-ret}
use esp_clock_sync.Estimator.{Sample, Estimator, u32_max, extremes, fit_window, refit}
use esp_clock_sync.Estimator.Offsets.{
  InRange, offset_of_bounds, total, sum_offsets-ret, total_bounds,
}
use esp_clock_sync.Estimator.Means.{mean_of, mean_of-ge, mean_of-le}
use esp_clock_sync.Estimator.Residuals.{IsNear, square_total, sum_squares-ret}
use esp_clock_sync.Estimator.Drift.{AreExtremes, extremes-some, drift_between, two_point_drift-ret}

-- The mean square of the residuals in µs².
abbrev pub variance : List Sample → ℕ
variance ss = saturate_u 128 (square_total (mean_of ss) ss) / length ss

-- What `refit` stores for the window `ss`.
pub record Fits (ss : List Sample) (e e' : Estimator) : Type 0 where
  pub samples : e'.samples ≡ e.samples
  pub head : e'.head ≡ e.head
  pub n : e'.n ≡ e.n
  pub last_update_us : e'.last_update_us ≡ e.last_update_us
  pub anchor_us : e'.anchor_us ≡ 0
  pub offset_ns : e'.offset_ns ≡ mean_of ss
  pub oldest : Sample
  pub newest : Sample
  pub oldest_among : Memᴰ oldest ss
  pub newest_among : Memᴰ newest ss
  pub extreme : AreExtremes ss oldest newest
  pub drift_ppb : e'.drift_ppb ≡ drift_between oldest newest
  pub root : ℕ
  pub root_below : root * root ≤ variance ss
  pub root_above : variance ss < (root + 1) * (root + 1)
  pub residual_us_p95 : e'.residual_us_p95 ≡ min (root * 2) u32_max

extremes_of :
    (ss : List Sample)
    → All InRange ss
    → 0 < length ss
    → (o : Sample) × (n : Sample) × (extremes ss none none ≡ ret (some o, some n))
      × (Memᴰ o ss × InRange o)
      × (Memᴰ n ss × InRange n)
      × AreExtremes ss o n
unfolding extremes
extremes_of [] h k = absurd (omega arith)
extremes_of (s ∷ ss) h k =
    let P = λ (x : Sample). Memᴰ x (s ∷ ss) × InRange x in
    let all = All-zip _ _ (s ∷ ss) (All-mem_self (s ∷ ss)) h in
    let (o, n, e, po, pn, lo, hi, ext) = extremes-some P ss s s all.1 all.0 all.0 in
    (o, n, e, po, pn, record { oldest = (lo, ext.oldest); newest = (hi, ext.newest) })

root_fits : (r v : ℕ) → r * r ≤ v → v < 2 ^ 125 → r < 2 ^ 63
root_fits r v h hv = elim (Bool-cases (ltb r (2 ^ 63))) [
  | inl small ↦ ground arith
  | inr large ↦
      let above : 2 ^ 63 ≤ r = ground arith in
      let square = mul-le-mul above above in absurd (omega arith)
]

mean-IsNear : (ss : List Sample) → All InRange ss → 0 < length ss → IsNear (mean_of ss)
mean-IsNear ss h k =
    let lo =
      mean_of-ge (negsuc (2 ^ 72 - 1)) ss k
        (All-map _ _ ss (λ a r. omega (arith, offset_of_bounds a r)) h) in
    let hi =
      mean_of-le (pos (2 ^ 72)) ss k
        (All-map _ _ ss (λ a r. omega (arith, offset_of_bounds a r)) h) in
    omega (arith, parts_exclusive (mean_of ss))

pub fit_window-Fits :
    (e : Estimator)
    → All InRange (somes e.samples)
    → 8 ≤ length (somes e.samples)
    → length (somes e.samples) ≤ 256
    → (e' : Estimator) × (fit_window e (total (somes e.samples)) (length (somes e.samples))
        ≡ ret e')
      × Fits (somes e.samples) e e'
unfolding fit_window
fit_window-Fits e h k8 k256 =
    let ss = somes e.samples in
    let k = length ss in
    let mean = mean_of ss in
    let near = mean-IsNear ss h (omega arith) in
    let bounds = total_bounds ss h in
    let (o, n, ext, po, pn, extreme) = extremes_of ss h (omega arith) in
    let v = variance ss in
    let saturated = saturate_u-FitsU 128 (square_total mean ss) in
    let k_pos : 0 < k = omega arith in
    let small : v < 2 ^ 125 = (div-lt_iff_lt-mul k_pos).1 (omega arith) in
    let (root, runs, below, above) = isqrt_u128-IsRoot v (omega arith) in
    let root_small = root_fits root v below small in
    let std : root % 2 ^ 64 ≡ root = omega arith in
    (
      record e {
        anchor_us = 0;
        offset_ns = mean;
        drift_ppb = drift_between o n;
        residual_us_p95 = min (root * 2) u32_max;
      },
      rw
          (
            div_i-ret 128 (total ss) k (omega arith) (omega arith),
            ext,
            two_point_drift-ret o n po.1 pn.1,
            sum_squares-ret mean ss 0 h near (omega arith),
            zero-add,
            div_u-ret (saturate_u 128 (square_total mean ss)) k k_pos,
            runs,
            std,
            saturate_u-fits 64 (root * 2) (omega arith),
          )
          refl,
      record {
        samples = refl;
        head = refl;
        n = refl;
        last_update_us = refl;
        anchor_us = refl;
        offset_ns = refl;
        oldest = o;
        newest = n;
        oldest_among = po.0;
        newest_among = pn.0;
        extreme = extreme;
        drift_ppb = refl;
        root = root;
        root_below = below;
        root_above = above;
        residual_us_p95 = refl;
      },
    )

-- `refit` on fewer than eight samples changes nothing.
pub refit_short :
    (e : Estimator) → All InRange (somes e.samples) → length (somes e.samples) < 8 → refit e ≡ ret e
unfolding refit
refit_short e h short =
    rw (sum_offsets-ret (somes e.samples) (pos 0) 0 h (omega arith) (omega arith) (omega arith))
      (ground arith)

-- `refit` on 8 to 256 samples in range ends with no panic, and stores the fit of its window.
pub refit-Fits :
    (e : Estimator)
    → All InRange (somes e.samples)
    → 8 ≤ length (somes e.samples)
    → length (somes e.samples) ≤ 256
    → (e' : Estimator) × (refit e ≡ ret e') × Fits (somes e.samples) e e'
unfolding refit
refit-Fits e h k8 k256 =
    let (e', runs, fits) = fit_window-Fits e h k8 k256 in
    (
      e',
      rw
          (
            sum_offsets-ret (somes e.samples) (pos 0) 0 h (omega arith) (omega arith) (omega arith),
            pos_zero_add,
            zero-add,
          )
          (ground (arith, runs)),
      fits,
    )
