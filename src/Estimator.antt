-- ===== src/Estimator.antt =====
-- crates/clock-sync/src/lib.rs, `Estimator`: the window of samples, the fit of the offset between
-- the local clock and the server's, and the queries.
--
-- A method that changes `self` returns the new state. Arithmetic that Rust checks for overflow is
-- `checked_i` or `checked_u`, so that an overflow is a `panic`.
pub mod Offsets
pub mod Means
pub mod Residuals
pub mod Drift
pub mod Fit
pub mod History
pub mod Queries
mod Tests
use esp_clock_sync.Prelude.{
  ℕ, ◌+◌, ◌-◌, ◌*◌, ◌/◌, ◌%◌, ◌^◌, ◌<◌, List, [], ◌∷◌, Option, none, some, ltb, leb, if◌then◌else◌,
  length, set, replicate, somes, min, Exec, ret, panic, ◌>>=◌,
}
use esp_clock_sync.Prelude.Int.{ℤ, pos, negsuc, ◌+ℤ◌, ◌-ℤ◌, ◌*ℤ◌, quot, abs, clamp, ltb_ℤ}
use esp_clock_sync.Prelude.Words.{
  checked_u, checked_i, saturate_u, saturate_i, wrap_u, wrap_i, signed, div_i,
}
use esp_clock_sync.Isqrt.{div_u, isqrt_u128}

pub record Sample : Type 0 where
  pub server_ns : ℕ
  pub local_us : ℕ

pub record Quality : Type 0 where
  pub n_samples : ℕ
  pub residual_us_p95 : ℕ
  pub drift_ppb : ℤ
  pub last_update_us : ℕ

abbrev pub window : ℕ
window = 256

abbrev pub min_samples : ℕ
min_samples = 8

abbrev pub u32_max : ℕ
u32_max = 2 ^ 32 - 1

pub record Estimator : Type 0 where
  pub samples : List (Option Sample)
  pub head : ℕ
  pub n : ℕ
  pub anchor_us : ℕ
  pub offset_ns : ℤ
  pub drift_ppb : ℤ
  pub residual_us_p95 : ℕ
  pub last_update_us : ℕ

unfoldable pub new : Estimator
new = record {
  samples = replicate window none;
  head = 0;
  n = 0;
  anchor_us = 0;
  offset_ns = pos 0;
  drift_ppb = pos 0;
  residual_us_p95 = u32_max;
  last_update_us = 0;
}

-- `(s.server_ns as i128) - (s.local_us as i128) * 1_000`
unfoldable pub sample_offset : Sample → Exec ℤ
sample_offset s = do
  local_ns ← checked_i 128 (pos s.local_us *ℤ pos 1_000)
  checked_i 128 (signed 128 s.server_ns -ℤ local_ns)

-- The first loop of `refit`: the sum of the offsets and the number of samples.
unfoldable pub sum_offsets : List Sample → ℤ → ℕ → Exec (ℤ × ℕ)
sum_offsets [] sum k = ret (sum, k)
sum_offsets (s ∷ ss) sum k = do
  offset ← sample_offset s
  sum' ← checked_i 128 (sum +ℤ offset)
  k' ← checked_u 32 (k + 1)
  sum_offsets ss sum' k'

-- The second loop: the samples with the least and the greatest local time. Its third match arm is
-- `unreachable!()`.
unfoldable pub extremes :
    List Sample → Option Sample → Option Sample → Exec (Option Sample × Option Sample)
extremes [] oldest newest = ret (oldest, newest)
extremes (s ∷ ss) none none = extremes ss (some s) (some s)
extremes (s ∷ ss) none (some n) = panic
extremes (s ∷ ss) (some o) none = panic
extremes (s ∷ ss) (some o) (some n) =
    extremes ss (some (if ltb s.local_us o.local_us then s else o))
      (some (if ltb n.local_us s.local_us then s else n))

-- The body of the match on `(oldest, newest)`; its guard makes the `u64` difference exact.
unfoldable pub slope_drift : Sample → Sample → Exec ℤ
slope_drift o n = do
  let dx_us = n.local_us - o.local_us
  dy_ns ← checked_i 128 (signed 128 n.server_ns -ℤ signed 128 o.server_ns)
  slope_q ← div_i 128 (saturate_i 128 (dy_ns *ℤ pos 1_000_000)) (pos dx_us)
  drift ← checked_i 128 (slope_q -ℤ pos 1_000_000_000)
  ret (wrap_i 64 (clamp (negsuc 999_999) (pos 1_000_000) drift))

unfoldable pub two_point_drift : Option Sample → Option Sample → Exec ℤ
two_point_drift none newest = ret (pos 0)
two_point_drift (some o) none = ret (pos 0)
two_point_drift (some o) (some n) = do
  least ← checked_u 64 (o.local_us + 1_000_000)
  if ltb least n.local_us then slope_drift o n else ret (pos 0)

-- The third loop: the squared residuals in µs², with a saturating sum.
unfoldable pub sum_squares : ℤ → List Sample → ℕ → Exec ℕ
sum_squares mean [] sum_sq = ret sum_sq
sum_squares mean (s ∷ ss) sum_sq = do
  offset ← sample_offset s
  resid_ns ← checked_i 128 (offset -ℤ mean)
  let resid_us = abs resid_ns / 1_000
  square ← checked_u 128 (resid_us * resid_us)
  sum_squares mean ss (saturate_u 128 (sum_sq + square))

-- `refit` behind its early return.
unfoldable pub fit_window : Estimator → ℤ → ℕ → Exec Estimator
fit_window e sum k = do
  let ss = somes e.samples
  mean ← div_i 128 sum (pos k)
  (oldest, newest) ← extremes ss none none
  drift ← two_point_drift oldest newest
  sum_sq ← sum_squares mean ss 0
  var_us ← div_u sum_sq k
  root ← isqrt_u128 var_us
  let std_us = root % 2 ^ 64
  ret (record e {
    anchor_us = 0;
    offset_ns = mean;
    drift_ppb = drift;
    residual_us_p95 = min (saturate_u 64 (std_us * 2)) u32_max;
  })

unfoldable pub refit : Estimator → Exec Estimator
refit e = do
  (sum, k) ← sum_offsets (somes e.samples) (pos 0) 0
  if ltb k min_samples then ret e else fit_window e sum k

-- `samples[i] = Some(s)`, which panics out of range.
abbrev pub store {ℓ} : {A : Type ℓ} → List (Option A) → ℕ → A → Exec (List (Option A))
store samples i s = if ltb i (length samples) then ret (set samples i (some s)) else panic

unfoldable pub observe : Estimator → Sample → Exec Estimator
observe e s = do
  samples ← store e.samples e.head s
  refit (record e {
    samples = samples;
    head = (e.head + 1) % window;
    n = if ltb e.n window then e.n + 1 else e.n;
    last_update_us = s.local_us;
  })

unfoldable pub synced_ns_at : Estimator → ℕ → Option ℕ
synced_ns_at e local_us =
    let predicted = saturate_i 128 (e.offset_ns +ℤ saturate_i 128 (pos local_us *ℤ pos 1_000)) in
    if ltb e.n min_samples
    then none
    else if ltb_ℤ predicted (pos 0)
    then none
    else some (wrap_u 128 predicted)

unfoldable pub local_us_at : Estimator → ℕ → Option ℕ
local_us_at e server_ns =
    let num = saturate_i 128 (signed 128 server_ns -ℤ e.offset_ns) in
    if ltb e.n min_samples
    then none
    else if ltb_ℤ num (pos 0)
    then none
    else some (wrap_u 64 (quot num (pos 1_000)))

unfoldable pub quality : Estimator → Quality
quality e = record {
  n_samples = e.n % 2 ^ 16;
  residual_us_p95 = if leb min_samples e.n then e.residual_us_p95 else u32_max;
  drift_ppb = wrap_i 32 (clamp (negsuc (2 ^ 31 - 1)) (pos (2 ^ 31 - 1)) e.drift_ppb);
  last_update_us = e.last_update_us;
}
