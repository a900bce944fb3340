-- ===== src/Tracker.antt =====
-- crates/clock-sync/src/lib.rs, `LinearTracker`: the least-squares line through a window of 256
-- samples, anchored at the centroid, and its predictions.
pub mod Predict
pub mod Fit
pub mod Moments
pub mod Line
pub mod Refit
pub mod History
pub mod Constant
pub mod Exact
pub mod Least
pub mod Forecast
mod Tests
use esp_clock_sync.Prelude.{
  ℕ, ◌+◌, ◌-◌, ◌%◌, ◌^◌, Bool, ◌||◌, List, [], ◌∷◌, Option, none, some, ltb, if◌then◌else◌, length,
  set, replicate, somes, Exec, ret, panic, ◌>>=◌,
}
use esp_clock_sync.Prelude.Int.{ℤ, pos, negsuc, ◌+ℤ◌, ◌-ℤ◌, ◌*ℤ◌, shr, clamp, ltb_ℤ, eqb_ℤ}
use esp_clock_sync.Prelude.Words.{checked_u, checked_i, wrap_i, shl, div_i}

abbrev pub Sample : Type 0
Sample = ℤ × ℤ

abbrev pub window : ℕ
window = 256

abbrev pub min_samples : ℕ
min_samples = 8

pub record Tracker : Type 0 where
  pub samples : List (Option Sample)
  pub head : ℕ
  pub n : ℕ
  pub last_x : ℤ
  pub mean_x : ℤ
  pub mean_y : ℤ
  pub slope_q32 : ℤ

unfoldable pub new : Tracker
new = record {
  samples = replicate window none;
  head = 0;
  n = 0;
  last_x = pos 0;
  mean_x = pos 0;
  mean_y = pos 0;
  slope_q32 = pos 0;
}

abbrev pub n_samples : Tracker → ℕ
n_samples t = t.n

-- Slope in parts per billion.
unfoldable pub slope_ppb : Tracker → Exec ℤ
slope_ppb t = do
  scaled ← checked_i 128 (t.slope_q32 *ℤ pos 1_000_000_000)
  ret (wrap_i 64 (shr 32 scaled))

-- The first loop of `refit`: the sums of the distances from the anchor and of the values, and the
-- number of samples.
unfoldable pub sums : ℤ → List Sample → ℤ → ℤ → ℕ → Exec (ℤ × ℤ × ℕ)
sums anchor_x [] sum_dx sum_y k = ret (sum_dx, sum_y, k)
sums anchor_x (s ∷ ss) sum_dx sum_y k = do
  dx ← checked_i 128 (s.0 -ℤ anchor_x)
  sum_dx' ← checked_i 128 (sum_dx +ℤ dx)
  sum_y' ← checked_i 128 (sum_y +ℤ s.1)
  k' ← checked_u 127 (k + 1)
  sums anchor_x ss sum_dx' sum_y' k'

-- The second loop: the numerator and the denominator of the slope.
unfoldable pub moments : ℤ → ℤ → ℤ → List Sample → ℤ → ℤ → Exec (ℤ × ℤ)
moments anchor_x mean_dx mean_y [] num den = ret (num, den)
moments anchor_x mean_dx mean_y (s ∷ ss) num den = do
  from_anchor ← checked_i 128 (s.0 -ℤ anchor_x)
  dx ← checked_i 128 (from_anchor -ℤ mean_dx)
  dy ← checked_i 128 (s.1 -ℤ mean_y)
  product ← checked_i 128 (dx *ℤ dy)
  num' ← checked_i 128 (num +ℤ product)
  square ← checked_i 128 (dx *ℤ dx)
  den' ← checked_i 128 (den +ℤ square)
  moments anchor_x mean_dx mean_y ss num' den'

-- `refit` behind its second early return, with the slope clamped to ±0.5.
unfoldable pub set_line : Tracker → ℤ → ℤ → ℤ → ℤ → Exec Tracker
set_line t mean_dx mean_y num den = do
  raw_q32 ← div_i 128 (shl 128 32 num) den
  mean_x ← checked_i 128 (t.last_x +ℤ mean_dx)
  ret (record t {
    slope_q32 = wrap_i 64 (clamp (negsuc (2 ^ 31 - 1)) (pos (2 ^ 31)) raw_q32);
    mean_x = wrap_i 64 mean_x;
    mean_y = wrap_i 64 mean_y;
  })

-- `refit` behind its first early return.
unfoldable pub fit_line : Tracker → ℤ → ℤ → ℕ → Exec Tracker
fit_line t sum_dx sum_y k = do
  mean_dx ← div_i 128 sum_dx (pos k)
  mean_y ← div_i 128 sum_y (pos k)
  (num, den) ← moments t.last_x mean_dx mean_y (somes t.samples) (pos 0) (pos 0)
  if eqb_ℤ den (pos 0) then ret t else set_line t mean_dx mean_y num den

unfoldable pub refit : Tracker → Exec Tracker
refit t = do
  (sum_dx, sum_y, k) ← sums t.last_x (somes t.samples) (pos 0) (pos 0) 0
  if ltb k min_samples then ret t else fit_line t sum_dx sum_y k

unfoldable pub observe : Tracker → ℤ → ℤ → Exec Tracker
observe t x y =
    if ltb t.head (length t.samples)
    then refit (record t {
      samples = set t.samples t.head (some (x, y));
      head = (t.head + 1) % window;
      n = if ltb t.n window then t.n + 1 else t.n;
      last_x = x;
    })
    else panic

-- `if a < i64::MIN || a > i64::MAX { None } else { Some(a as i64) }`
abbrev pub some_i64 : ℤ → Option ℤ
some_i64 a =
    if ltb_ℤ a (negsuc (2 ^ 63 - 1)) || ltb_ℤ (pos (2 ^ 63 - 1)) a then none else some (wrap_i 64 a)

-- `predict` from eight samples on.
unfoldable pub on_line : Tracker → ℤ → Exec (Option ℤ)
on_line t x = do
  dx ← checked_i 128 (x -ℤ t.mean_x)
  rise ← checked_i 128 (dx *ℤ t.slope_q32)
  y ← checked_i 128 (t.mean_y +ℤ shr 32 rise)
  ret (some_i64 y)

unfoldable pub predict : Tracker → ℤ → Exec (Option ℤ)
predict t x = if ltb t.n min_samples then ret none else on_line t x

-- `predict_inverse` behind its two early returns.
unfoldable pub off_line : Tracker → ℤ → Exec (Option ℤ)
off_line t y = do
  dy ← checked_i 128 (y -ℤ t.mean_y)
  dx ← div_i 128 (shl 128 32 dy) t.slope_q32
  x ← checked_i 128 (t.mean_x +ℤ dx)
  ret (some_i64 x)

unfoldable pub predict_inverse : Tracker → ℤ → Exec (Option ℤ)
predict_inverse t y =
    if ltb t.n min_samples
    then ret none
    else if eqb_ℤ t.slope_q32 (pos 0)
    then ret (some t.mean_x)
    else off_line t y
