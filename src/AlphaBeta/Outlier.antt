-- ===== src/AlphaBeta/Outlier.antt =====
-- One observation, however wrong, moves the offset and the rate by a bounded amount.

use native.Mathlib.Nat.{le-div_iff_mul-le, mul-div-le, div-le_self}
use esp_clock_sync.Prelude.{ℕ, ◌+◌, ◌-◌, ◌*◌, ◌/◌, ◌^◌, ◌≤◌, ◌<◌, ◌≡◌, refl, true, arith, ret}
use esp_clock_sync.Prelude.Int.{
  ℤ, pos, negsuc, pos_part, neg_part, ◌+ℤ◌, ◌-ℤ◌, ◌*ℤ◌, shr, quot, clamp, clamp_bounds, -ℤ_parts,
  +ℤ_parts, *ℤ_pos_parts, quot_pos_parts, quot_pos_le, parts_exclusive,
}
use esp_clock_sync.Prelude.Words.{
  FitsI, shl, wrap_i-fits, saturate_i, saturate_i-fits, saturate_i-FitsI, checked_i-ret, div_i-ret,
}
use esp_clock_sync.AlphaBeta.{AlphaBeta, observe, extrapolate, correct, max_innovation_q}

shr_small :
    (a : ℤ) → FitsI 128 a → (pos_part (shr 12 a) ≤ 2 ^ 115) × (neg_part (shr 12 a) ≤ 2 ^ 115)
unfolding shr
shr_small (pos n) h = omega arith
shr_small (negsuc n) h = omega arith

-- An offset of at most 2^126 is far from the ends of an i128.
abbrev pub IsSmall : ℤ → Type 0
IsSmall a = (pos_part a ≤ 2 ^ 126) × (neg_part a ≤ 2 ^ 126)

extrapolate_bounds :
    (f : AlphaBeta) (dx : ℤ)
    → IsSmall f.offset_q
    → (pos_part (extrapolate f dx) ≤ 2 ^ 126 + 2 ^ 115)
      × (neg_part (extrapolate f dx) ≤ 2 ^ 126 + 2 ^ 115)
unfolding extrapolate
extrapolate_bounds f dx h =
    let m = saturate_i 128 (f.rate_q *ℤ dx) in
    let s = shr_small m (saturate_i-FitsI 128 _) in
    let p = +ℤ_parts f.offset_q (shr 12 m) in
    let e = saturate_i-fits 128 (f.offset_q +ℤ shr 12 m) (omega arith) in rw e (omega arith)

-- Between two observations the offset moves by at most 2^115.
pub extrapolate_moves :
    (f : AlphaBeta) (dx : ℤ)
    → IsSmall f.offset_q
    → (pos_part (extrapolate f dx) ≤ pos_part f.offset_q + 2 ^ 115)
      × (neg_part (extrapolate f dx) ≤ neg_part f.offset_q + 2 ^ 115)
unfolding extrapolate
extrapolate_moves f dx h =
    let m = saturate_i 128 (f.rate_q *ℤ dx) in
    let s = shr_small m (saturate_i-FitsI 128 _) in
    let p = +ℤ_parts f.offset_q (shr 12 m) in
    let x = parts_exclusive (f.offset_q +ℤ shr 12 m) in
    let e = saturate_i-fits 128 (f.offset_q +ℤ shr 12 m) (omega arith) in rw e (omega arith)

pub shl_fits : (k : ℕ) (a : ℤ) → FitsI 128 (a *ℤ pos (2 ^ k)) → shl 128 k a ≡ a *ℤ pos (2 ^ k)
unfolding shl
shl_fits k a h = wrap_i-fits 128 _ (omega arith) h

-- `a` is at most `m` away from `b`.
abbrev pub IsWithin : ℕ → ℤ → ℤ → Type 0
IsWithin m a b =
    (pos_part a + neg_part b ≤ pos_part b + neg_part a + m)
    × (pos_part b + neg_part a ≤ pos_part a + neg_part b + m)

saturate-IsWithin :
    (a b : ℤ) (m : ℕ)
    → FitsI 128 a
    → pos_part b ≤ m
    → neg_part b ≤ m
    → IsWithin m (saturate_i 128 (a +ℤ b)) a
unfolding saturate_i
saturate-IsWithin a b m h p q =
    let e = +ℤ_parts a b in
    let x = parts_exclusive (a +ℤ b) in let y = parts_exclusive a in ground arith

div_mono : (p m k : ℕ) → 0 < k → p ≤ m → p / k ≤ m / k
div_mono p m k hk h = (le-div_iff_mul-le hk).1 (omega (arith, mul-div-le p k))

-- The share of an innovation that was clamped to `m`.
quot_within :
    (a : ℤ) (m k : ℕ)
    → 0 < k
    → pos_part a ≤ m
    → neg_part a ≤ m
    → (pos_part (quot a (pos k)) ≤ m / k) × (neg_part (quot a (pos k)) ≤ m / k)
quot_within a m k hk p q =
    let e = quot_pos_parts a k in
    omega (arith, div_mono (pos_part a) m k hk p, div_mono (neg_part a) m k hk q)

module _ (f : AlphaBeta) (x y : ℤ) (d : ℕ) (small : IsSmall f.offset_q) (rate : FitsI 128 f.rate_q)
    (h : FitsI 64 y) (hd : 0 < d) (ha : 0 < f.alpha) (hb : 0 < f.beta) where
  unfoldable pub predicted : ℤ
  predicted = extrapolate f (pos d)

  pub clamped : ℤ
  clamped =
      clamp (negsuc (1_000 * 2 ^ 20 - 1)) (pos max_innovation_q) (y *ℤ pos (2 ^ 20) -ℤ predicted)

  pub share : ℤ
  share = quot clamped (pos f.alpha)

  pub rate_share : ℤ
  rate_share = quot (quot (clamped *ℤ pos (2 ^ 12)) (pos d)) (pos f.beta)

  clamped_small : (pos_part clamped ≤ max_innovation_q) × (neg_part clamped ≤ max_innovation_q)
  unfolding clamped
  clamped_small =
      let c =
        clamp_bounds (negsuc (1_000 * 2 ^ 20 - 1)) (pos max_innovation_q)
          (y *ℤ pos (2 ^ 20) -ℤ predicted) (omega arith) in
      let z = parts_exclusive (
        clamp (negsuc (1_000 * 2 ^ 20 - 1)) (pos max_innovation_q)
          (y *ℤ pos (2 ^ 20) -ℤ predicted)) in
      omega arith

  pub share_small :
      (pos_part share ≤ max_innovation_q / f.alpha) × (neg_part share ≤ max_innovation_q / f.alpha)
  unfolding share
  share_small = quot_within clamped max_innovation_q f.alpha ha clamped_small.0 clamped_small.1

  rate_share_small :
      (pos_part rate_share ≤ max_innovation_q * 2 ^ 12 / d / f.beta)
      × (neg_part rate_share ≤ max_innovation_q * 2 ^ 12 / d / f.beta)
  unfolding rate_share
  rate_share_small =
      let p = *ℤ_pos_parts clamped (2 ^ 12) in
      let c = clamped_small in
      let q =
        quot_within (clamped *ℤ pos (2 ^ 12)) (max_innovation_q * 2 ^ 12) d hd (omega arith)
          (omega arith) in
      quot_within _ (max_innovation_q * 2 ^ 12 / d) f.beta hb q.0 q.1

  offset_fits : FitsI 128 (predicted +ℤ share)
  unfolding predicted
  offset_fits =
      let b = extrapolate_bounds f (pos d) small in
      let q = share_small in
      let p = +ℤ_parts (extrapolate f (pos d)) share in
      omega (arith, div-le_self max_innovation_q f.alpha)

  unfoldable pub corrected : AlphaBeta
  corrected = record f {
    offset_q = predicted +ℤ share;
    rate_q = saturate_i 128 (f.rate_q +ℤ rate_share);
    last_x_us = x;
  }

  pub correct-ret : correct f x (pos d) y ≡ ret corrected
  unfolding correct corrected predicted clamped share rate_share
  correct-ret =
      let p = *ℤ_pos_parts y (2 ^ 20) in
      let b = extrapolate_bounds f (pos d) small in
      let s = -ℤ_parts (y *ℤ pos (2 ^ 20)) (extrapolate f (pos d)) in
      let c = clamped_small in
      let m = *ℤ_pos_parts clamped (2 ^ 12) in
      let q = quot_pos_le (clamped *ℤ pos (2 ^ 12)) d in
      rw
        (
          shl_fits 20 y (omega arith),
          checked_i-ret 128 (y *ℤ pos (2 ^ 20) -ℤ extrapolate f (pos d)) (omega arith),
          div_i-ret 128 clamped f.alpha ha (omega arith),
          checked_i-ret 128 (predicted +ℤ share) offset_fits,
          shl_fits 12 clamped (omega arith),
          div_i-ret 128 (clamped *ℤ pos (2 ^ 12)) d hd (omega arith),
          div_i-ret 128 (quot (clamped *ℤ pos (2 ^ 12)) (pos d)) f.beta hb (omega arith),
        )
        refl

-- An observation `d` µs after the last one ends with no panic where the tracked offset is at most
-- 2^126 and the gains are above zero. Whatever was observed, the offset lands within 1000 µs / alpha
-- of its prediction, and the rate moves by at most 1000 µs / d / beta.
pub observe-IsWithin :
    (f : AlphaBeta) (x y : ℤ) (d : ℕ)
    → f.initialized ≡ true
    → IsSmall f.offset_q
    → FitsI 128 f.rate_q
    → FitsI 64 y
    → x -ℤ f.last_x_us ≡ pos d
    → 0 < d
    → 0 < f.alpha
    → 0 < f.beta
    → (f' : AlphaBeta) × (observe f x y ≡ ret f')
      × IsWithin (max_innovation_q / f.alpha) f'.offset_q (extrapolate f (pos d))
      × IsWithin (max_innovation_q * 2 ^ 12 / d / f.beta) f'.rate_q f.rate_q
      × (f'.last_x_us ≡ x)
unfolding observe corrected predicted
observe-IsWithin f x y d seeded small rate h gap hd ha hb =
    let s = share_small f x y d small rate h hd ha hb in
    let p = +ℤ_parts (extrapolate f (pos d)) (share f x y d small rate h hd ha hb) in
    let r = rate_share_small f x y d small rate h hd ha hb in
    (
      corrected f x y d small rate h hd ha hb,
      rw (gap, correct-ret f x y d small rate h hd ha hb, seeded) (ground arith),
      (omega arith, omega arith),
      saturate-IsWithin f.rate_q (rate_share f x y d small rate h hd ha hb) _ rate r.0 r.1,
      refl,
    )
