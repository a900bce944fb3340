-- ===== src/AlphaBeta.antt =====
-- crates/clock-sync/src/lib.rs, `AlphaBetaFilter`: an offset in µs scaled by 2^20 and a rate scaled
-- by 2^32, each corrected by a share of the clamped innovation.
pub mod Steady
pub mod Outlier
pub mod Ready
mod Tests
use esp_clock_sync.Prelude.{
  ℕ, ◌-◌, ◌*◌, ◌^◌, Bool, true, false, Option, none, some, if◌then◌else◌, Exec, ret, ◌>>=◌,
}
use esp_clock_sync.Prelude.Int.{ℤ, pos, negsuc, ◌+ℤ◌, ◌-ℤ◌, ◌*ℤ◌, shr, clamp, leb_ℤ}
use esp_clock_sync.Prelude.Words.{checked_i, saturate_i, wrap_i, shl, div_i}

pub record AlphaBeta : Type 0 where
  pub initialized : Bool
  pub last_x_us : ℤ
  pub offset_q : ℤ
  pub rate_q : ℤ
  pub alpha : ℕ
  pub beta : ℕ

abbrev pub offset_q_shift : ℕ
offset_q_shift = 20

abbrev pub rate_q_shift : ℕ
rate_q_shift = 32

abbrev pub rate_to_offset_shift : ℕ
rate_to_offset_shift = 12

abbrev pub new : ℕ → ℕ → AlphaBeta
new alpha beta = record {
  initialized = false;
  last_x_us = pos 0;
  offset_q = pos 0;
  rate_q = pos 0;
  alpha = alpha;
  beta = beta;
}

abbrev pub is_initialized : AlphaBeta → Bool
is_initialized f = f.initialized

-- Tracked rate as parts per billion.
unfoldable pub rate_ppb : AlphaBeta → Exec ℤ
rate_ppb f = do
  scaled ← checked_i 128 (f.rate_q *ℤ pos 1_000_000_000)
  ret (wrap_i 64 (shr rate_q_shift scaled))

-- Tracked offset in µs at `last_x_us`.
unfoldable pub offset_us : AlphaBeta → ℤ
offset_us f = wrap_i 64 (shr offset_q_shift f.offset_q)

-- `offset_q.saturating_add(rate_q.saturating_mul(dx_us) >> 12)`
unfoldable pub extrapolate : AlphaBeta → ℤ → ℤ
extrapolate f dx_us =
    saturate_i 128 (f.offset_q +ℤ shr rate_to_offset_shift (saturate_i 128 (f.rate_q *ℤ dx_us)))

-- 1000 µs, scaled.
abbrev pub max_innovation_q : ℕ
max_innovation_q = 1_000 * 2 ^ 20

-- `observe` behind its two early returns, with the innovation clamped to ±1 ms.
unfoldable pub correct : AlphaBeta → ℤ → ℤ → ℤ → Exec AlphaBeta
correct f x_us dx_us observed_offset_us = do
  let predicted_offset_q = extrapolate f dx_us
  innovation_q ← checked_i 128 (shl 128 offset_q_shift observed_offset_us -ℤ predicted_offset_q)
  let clamped = clamp (negsuc (1_000 * 2 ^ 20 - 1)) (pos max_innovation_q) innovation_q
  share ← div_i 128 clamped (pos f.alpha)
  offset ← checked_i 128 (predicted_offset_q +ℤ share)
  observed_rate_q ← div_i 128 (shl 128 rate_to_offset_shift clamped) dx_us
  rate_share ← div_i 128 observed_rate_q (pos f.beta)
  ret (record f {
    offset_q = offset;
    rate_q = saturate_i 128 (f.rate_q +ℤ rate_share);
    last_x_us = x_us;
  })

unfoldable pub observe : AlphaBeta → ℤ → ℤ → Exec AlphaBeta
observe f x_us observed_offset_us =
    let dx_us = x_us -ℤ f.last_x_us in
    if f.initialized
    then (if leb_ℤ dx_us (pos 0) then ret f else correct f x_us dx_us observed_offset_us)
    else ret (record f {
      last_x_us = x_us;
      offset_q = shl 128 offset_q_shift observed_offset_us;
      rate_q = pos 0;
      initialized = true;
    })

unfoldable pub predict : AlphaBeta → ℤ → Option ℤ
predict f x_us =
    if f.initialized
    then some (wrap_i 64 (shr offset_q_shift (extrapolate f (x_us -ℤ f.last_x_us))))
    else none
