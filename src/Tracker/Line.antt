-- ===== src/Tracker/Line.antt =====
-- The line that `refit` of the tracker stores, and its bounds.
use esp_clock_sync.Prelude.{ℕ, ◌-◌, ◌^◌, ◌≤◌, ◌<◌, ◌≡◌, refl, arith, ret}
use esp_clock_sync.Prelude.Int.{
  ℤ, pos, negsuc, ◌+ℤ◌, quot, abs, clamp, int_laws, parts_exclusive, clamp_bounds,
}
use esp_clock_sync.Prelude.Words.{FitsI, checked_i-ret, div_i-ret, wrap_i-fits, wrap_i-FitsI, shl}
use esp_clock_sync.Tracker.{Tracker, set_line}
use esp_clock_sync.Tracker.Predict.{IsClamped}
use esp_clock_sync.Tracker.Fit.{abs_add}

-- A slope within the clamp, and a centroid of 62 bits.
pub record IsLine (t : Tracker) : Type 0 where
  pub slope : IsClamped t.slope_q32
  pub mean_x : FitsI 62 t.mean_x
  pub mean_y : FitsI 62 t.mean_y

-- What `refit` leaves: the window as it was, and a line.
pub record IsRefit (t t' : Tracker) : Type 0 where
  pub samples : t'.samples ≡ t.samples
  pub head : t'.head ≡ t.head
  pub n : t'.n ≡ t.n
  pub last_x : t'.last_x ≡ t.last_x
  pub line : IsLine t'

abbrev pub slope_of : ℤ → ℕ → ℤ
slope_of num d = clamp (negsuc (2 ^ 31 - 1)) (pos (2 ^ 31)) (quot (shl 128 32 num) (pos d))

slope_of-IsClamped : (num : ℤ) (d : ℕ) → IsClamped (slope_of num d)
slope_of-IsClamped num d =
    let b =
      clamp_bounds (negsuc (2 ^ 31 - 1)) (pos (2 ^ 31)) (quot (shl 128 32 num) (pos d))
        (omega int_laws) in
    let x = parts_exclusive (slope_of num d) in (omega arith, omega arith)

unfoldable pub line_of : Tracker → ℤ → ℤ → ℤ → ℕ → Tracker
line_of t mean_dx mean_y num d = record t {
  slope_q32 = slope_of num d;
  mean_x = t.last_x +ℤ mean_dx;
  mean_y = mean_y;
}

pub set_line-ret :
    (t : Tracker) (mean_dx mean_y num : ℤ) (d : ℕ)
    → abs t.last_x < 2 ^ 56
    → abs mean_dx ≤ 2 ^ 57
    → abs mean_y ≤ 2 ^ 56
    → 0 < d
    → set_line t mean_dx mean_y num (pos d) ≡ ret (line_of t mean_dx mean_y num d)
unfolding set_line shl line_of
set_line-ret t mean_dx mean_y num d ha hd hy pos_d =
    let e = abs_add t.last_x mean_dx in
    let c = slope_of-IsClamped num d in
    rw
      (
        div_i-ret 128 (shl 128 32 num) d pos_d (wrap_i-FitsI 128 _ (omega arith)),
        checked_i-ret 128 (t.last_x +ℤ mean_dx) (omega arith, omega arith),
        wrap_i-fits 64 (slope_of num d) (omega arith) (omega arith, omega arith),
        wrap_i-fits 64 (t.last_x +ℤ mean_dx) (omega arith) (omega arith, omega arith),
        wrap_i-fits 64 mean_y (omega arith) (omega arith, omega arith),
      )
      refl

pub line_of-IsRefit :
    (t : Tracker) (mean_dx mean_y num : ℤ) (d : ℕ)
    → abs t.last_x < 2 ^ 56
    → abs mean_dx ≤ 2 ^ 57
    → abs mean_y ≤ 2 ^ 56
    → IsRefit t (line_of t mean_dx mean_y num d)
unfolding line_of
line_of-IsRefit t mean_dx mean_y num d ha hd hy =
    let e = abs_add t.last_x mean_dx in
    record {
      samples = refl;
      head = refl;
      n = refl;
      last_x = refl;
      line = record {
        slope = slope_of-IsClamped num d;
        mean_x = (omega arith, omega arith);
        mean_y = (omega arith, omega arith);
      };
    }

pub same-IsRefit : (t : Tracker) → IsLine t → IsRefit t t
same-IsRefit t v = record { samples = refl; head = refl; n = refl; last_x = refl; line = v }
