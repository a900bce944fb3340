-- ===== src/AlphaBeta/Ready.antt =====
-- A filter that no run of observations makes panic.
use esp_clock_sync.Prelude.{
  ℕ, suc, ◌+◌, ◌*◌, ◌^◌, ◌≤◌, ◌<◌, ◌≡◌, refl, ap, true, arith, Bool-cases, inl, inr, ret,
}
use esp_clock_sync.Prelude.Int.{
  ℤ, pos, pos_part, neg_part, ◌+ℤ◌, ◌-ℤ◌, leb_ℤ, +ℤ_parts, *ℤ_pos_parts, parts_exclusive,
  pos_of_nonneg,
}
use native.Mathlib.Nat.{div-le_self}
use esp_clock_sync.Prelude.Words.{FitsI, shl, saturate_i-FitsI}
use esp_clock_sync.AlphaBeta.{AlphaBeta, observe, extrapolate, max_innovation_q}
use esp_clock_sync.AlphaBeta.Outlier.{
  IsSmall, extrapolate_moves, shl_fits, predicted, share, share_small, corrected, correct-ret,
}

-- A filter whose offset is so small that it stays small through `k` observations of any values.
pub record IsReadyFor (k : ℕ) (f : AlphaBeta) : Type 0 where
  pub small :
      (pos_part f.offset_q + k * 2 ^ 116 ≤ 2 ^ 126) × (neg_part f.offset_q + k * 2 ^ 116 ≤ 2 ^ 126)
  pub rate : FitsI 128 f.rate_q
  pub alpha_pos : 0 < f.alpha
  pub beta_pos : 0 < f.beta

pub IsReadyFor-fewer : (f : AlphaBeta) (k : ℕ) → IsReadyFor (suc k) f → IsReadyFor k f
IsReadyFor-fewer f k r =
    let s = r.small in
    record {
      small = (omega arith, omega arith);
      rate = r.rate;
      alpha_pos = r.alpha_pos;
      beta_pos = r.beta_pos;
    }

seeded-IsReadyFor :
    (f : AlphaBeta) (k : ℕ) (x y : ℤ)
    → IsReadyFor (suc k) f
    → FitsI 64 y
    → IsReadyFor k
        (record f { last_x_us = x; offset_q = shl 128 20 y; rate_q = pos 0; initialized = true })
seeded-IsReadyFor f k x y r h =
    let p = *ℤ_pos_parts y (2 ^ 20) in
    let e = shl_fits 20 y (omega arith) in
    let s = r.small in
    record {
      small = rw e (omega arith);
      rate = (omega arith, omega arith);
      alpha_pos = r.alpha_pos;
      beta_pos = r.beta_pos;
    }

module _ (f : AlphaBeta) (k : ℕ) (x y : ℤ) (r : IsReadyFor (suc k) f) (h : FitsI 64 y) where
  offset_bounds : IsSmall f.offset_q
  offset_bounds = let s = r.small in (omega arith, omega arith)

  corrected-IsReadyFor :
      (d : ℕ) (small : IsSmall f.offset_q) (hd : 0 < d)
      → IsReadyFor k (corrected f x y d small r.rate h hd r.alpha_pos r.beta_pos)
  unfolding corrected predicted
  corrected-IsReadyFor d small hd =
      let s = r.small in
      let b = extrapolate_moves f (pos d) small in
      let q = share_small f x y d small r.rate h hd r.alpha_pos r.beta_pos in
      let n = share f x y d small r.rate h hd r.alpha_pos r.beta_pos in
      let p =
        +ℤ_parts (extrapolate f (pos d)) (share f x y d small r.rate h hd r.alpha_pos r.beta_pos) in
      let z =
        parts_exclusive
          (extrapolate f (pos d) +ℤ share f x y d small r.rate h hd r.alpha_pos r.beta_pos) in
      let le = div-le_self max_innovation_q f.alpha in
      record {
        small = (omega arith, omega arith);
        rate = saturate_i-FitsI 128 _;
        alpha_pos = r.alpha_pos;
        beta_pos = r.beta_pos;
      }

  -- An observation leaves the filter ready for one less.
  pub observe-IsReadyFor : (f' : AlphaBeta) × (observe f x y ≡ ret f') × IsReadyFor k f'
  unfolding observe
  observe-IsReadyFor = elim (Bool-cases f.initialized) [
    | inr fresh ↦ (
      record f { last_x_us = x; offset_q = shl 128 20 y; rate_q = pos 0; initialized = true },
      rw fresh refl,
      seeded-IsReadyFor f k x y r h,
    )
    | inl seeded ↦ elim (Bool-cases (leb_ℤ (x -ℤ f.last_x_us) (pos 0))) [
      | inl stale ↦ (f, rw (stale, seeded) refl, IsReadyFor-fewer f k r)
      | inr later ↦
          let (d, gap) = pos_of_nonneg (x -ℤ f.last_x_us) (ground arith) in
          let hd : 0 < d = let p = ap pos_part gap in let n = ap neg_part gap in ground arith in
          (
            corrected f x y d offset_bounds r.rate h hd r.alpha_pos r.beta_pos,
            rw (gap, correct-ret f x y d offset_bounds r.rate h hd r.alpha_pos r.beta_pos, seeded)
                (ground arith),
            corrected-IsReadyFor d offset_bounds hd,
          )
    ]
  ]
