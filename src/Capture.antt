-- ===== src/Capture.antt =====
-- crates/clock-sync-test/src/mcpwm_cap.rs: the capture timer. The statics are one record; what the
-- registers and the clocks read is an argument. The true tick count of the hardware never wraps,
-- its registers hold the 32 low bits.
pub mod System
pub mod Unwrap
pub mod Sequence
pub mod Linear
pub mod Convert
mod Tests
use esp_clock_sync.Prelude.{
  ℕ, ◌+◌, ◌-◌, ◌*◌, ◌/◌, ◌%◌, ◌^◌, ◌||◌, List, [], ◌∷◌, Option, none, some, ltb, ◌==◌,
  if◌then◌else◌, Exec, ret, ◌>>=◌,
}
use esp_clock_sync.Prelude.Int.{ℤ, pos, negsuc, ◌+ℤ◌, ◌-ℤ◌, ◌*ℤ◌, shr, ltb_ℤ, eqb_ℤ}
use esp_clock_sync.Prelude.Words.{checked_u, checked_i, wrap_u, signed, shl, div_i}

pub record Capture : Type 0 where
  pub cap_anchor_ticks : ℕ
  pub instant_anchor_us : ℤ
  pub tsf_anchor_us : ℤ
  pub us_per_tick_instant_q32 : ℕ
  pub us_per_tick_tsf_q32 : ℕ
  pub last_cap_ch0 : ℕ
  pub last_cap_ch0_raw : ℕ
  pub last_cap_ch1 : ℕ
  pub last_cap_ch1_raw : ℕ
  pub cap_ch0_hits : ℕ
  pub cap_ch1_hits : ℕ
  pub last_sw_cap_packed : ℕ

-- "Not yet calibrated": i64::MIN.
abbrev pub anchor_unset : ℤ
anchor_unset = negsuc (2 ^ 63 - 1)

abbrev pub new : Capture
new = record {
  cap_anchor_ticks = 0;
  instant_anchor_us = anchor_unset;
  tsf_anchor_us = anchor_unset;
  us_per_tick_instant_q32 = 0;
  us_per_tick_tsf_q32 = 0;
  last_cap_ch0 = 2 ^ 64 - 1;
  last_cap_ch0_raw = 0;
  last_cap_ch1 = 2 ^ 64 - 1;
  last_cap_ch1_raw = 0;
  cap_ch0_hits = 0;
  cap_ch1_hits = 0;
  last_sw_cap_packed = 0;
}

-- `a.abs_diff(b)`
abbrev pub abs_diff : ℕ → ℕ → ℕ
abs_diff a b = if ltb a b then b - a else a - b

-- `(high << 32) | raw`, whose operands have no bit in common.
abbrev pub pack : ℕ → ℕ → ℕ
pack high raw = high * 2 ^ 32 + raw

-- The loop over the candidates behind the first.
unfoldable pub closest : ℕ → ℕ → List ℕ → ℕ
closest predicted best [] = best
closest predicted best (c ∷ cs) =
    closest predicted (if ltb (abs_diff predicted c) (abs_diff predicted best) then c else best) cs

-- The full count closest to the predicted one among three with these low bits.
unfoldable pub reconcile : ℕ → ℕ → ℕ
unfolding closest
reconcile predicted raw =
    let high_pred = predicted / 2 ^ 32 % 2 ^ 32 in
    closest predicted (pack ((high_pred + 2 ^ 32 - 1) % 2 ^ 32) raw)
      (pack high_pred raw ∷ pack ((high_pred + 1) % 2 ^ 32) raw ∷ [])

-- `unwrap_cap_raw` behind the test of the calibration.
unfoldable pub unwrap_calibrated : Capture → ℕ → ℕ → Exec ℕ
unwrap_calibrated c now_us raw = do
  d_us ← checked_i 128 (pos now_us -ℤ c.instant_anchor_us)
  ticks ← div_i 128 (shl 128 32 d_us) (pos c.us_per_tick_instant_q32)
  predicted ← checked_i 128 (pos c.cap_anchor_ticks +ℤ ticks)
  ret (if ltb_ℤ predicted (pos 0) then raw else reconcile (wrap_u 64 predicted) raw)

unfoldable pub unwrap_cap_raw : Capture → ℕ → ℕ → Exec ℕ
unwrap_cap_raw c now_us raw =
    if eqb_ℤ c.instant_anchor_us anchor_unset || c.us_per_tick_instant_q32 == 0
    then ret raw
    else unwrap_calibrated c now_us raw

-- The value that a software capture puts in the place of `packed`.
unfoldable pub new_packed : ℕ → ℕ → ℕ
new_packed packed raw =
    let prev_raw = packed % 2 ^ 32 in
    let prev_high = packed / 2 ^ 32 in
    pack (if ltb raw prev_raw then (prev_high + 1) % 2 ^ 32 else prev_high) raw

-- A software capture that nothing interrupts. The loop with others is in Capture/System.
abbrev pub sw_capture_ch2 : Capture → ℕ → Capture × ℕ
sw_capture_ch2 c raw =
    let captured = new_packed c.last_sw_cap_packed raw in
    (record c { last_sw_cap_packed = captured }, captured)

-- The two polls, given the channel's register and the `Instant` clock.
unfoldable pub poll_ch0 : Capture → ℕ → ℕ → Exec (Capture × Option ℕ)
poll_ch0 c now_us raw =
    let fresh = unwrap_cap_raw c now_us raw >>= λ unwrapped. ret (
      record c {
        last_cap_ch0 = unwrapped;
        last_cap_ch0_raw = raw;
        cap_ch0_hits = (c.cap_ch0_hits + 1) % 2 ^ 64;
      },
      some unwrapped,
    ) in
    if raw == c.last_cap_ch0_raw % 2 ^ 32 then ret (c, none) else fresh

unfoldable pub poll_ch1 : Capture → ℕ → ℕ → Exec (Capture × Option ℕ)
poll_ch1 c now_us raw =
    let fresh = unwrap_cap_raw c now_us raw >>= λ unwrapped. ret (
      record c {
        last_cap_ch1 = unwrapped;
        last_cap_ch1_raw = raw;
        cap_ch1_hits = (c.cap_ch1_hits + 1) % 2 ^ 64;
      },
      some unwrapped,
    ) in
    if raw == c.last_cap_ch1_raw % 2 ^ 32 then ret (c, none) else fresh

-- `a + ((cap_ticks - cap_anchor) * q32 >> 32)`, as a u64 where it is one.
unfoldable pub cap_ticks_to_us : ℤ → ℕ → ℕ → ℕ → Exec (Option ℕ)
cap_ticks_to_us anchor cap_anchor q32 cap_ticks = do
  let d_ticks = (cap_ticks + 2 ^ 64 - cap_anchor) % 2 ^ 64
  scaled ← checked_i 128 (pos d_ticks *ℤ pos q32)
  us ← checked_i 128 (anchor +ℤ shr 32 scaled)
  ret (if ltb_ℤ us (pos 0) || ltb_ℤ (pos (2 ^ 64 - 1)) us then none else some (wrap_u 64 us))

unfoldable pub cap_ticks_to_instant_us : Capture → ℕ → Exec (Option ℕ)
cap_ticks_to_instant_us c cap_ticks =
    if eqb_ℤ c.instant_anchor_us anchor_unset
    then ret none
    else cap_ticks_to_us c.instant_anchor_us c.cap_anchor_ticks c.us_per_tick_instant_q32 cap_ticks

unfoldable pub cap_ticks_to_mac_tsf_us : Capture → ℕ → Exec (Option ℕ)
cap_ticks_to_mac_tsf_us c cap_ticks =
    if eqb_ℤ c.tsf_anchor_us anchor_unset
    then ret none
    else cap_ticks_to_us c.tsf_anchor_us c.cap_anchor_ticks c.us_per_tick_tsf_q32 cap_ticks

abbrev pub ch0_hits : Capture → ℕ
ch0_hits c = c.cap_ch0_hits

abbrev pub ch1_hits : Capture → ℕ
ch1_hits c = c.cap_ch1_hits

-- What `sw_capture_ch2_with_clocks` returns.
pub record Clocks : Type 0 where
  pub cap : ℕ
  pub instant_us : ℕ
  pub tsf : Option ℕ

-- The slope of the `Instant` clock, from two captures.
unfoldable pub us_per_tick : ℕ → ℕ → ℕ
us_per_tick d_instant d_cap = if d_cap == 0 then 2 ^ 32 else d_instant * 2 ^ 32 / d_cap % 2 ^ 64

-- The fixed slope of 80 ticks in a µs.
abbrev pub tsf_q32 : ℕ
tsf_q32 = 2 ^ 32 / 80

abbrev pub store_tsf : Capture → Option ℕ → Capture
store_tsf c none = c
store_tsf c (some t0) = record c { tsf_anchor_us = signed 64 t0; us_per_tick_tsf_q32 = tsf_q32 }

-- The calibration at the end of `init`, given its two captures.
unfoldable pub calibrate : Capture → Clocks → Clocks → Exec Capture
calibrate c first second = do
  target ← checked_u 64 (first.instant_us + 4_000_000)
  let d_instant = (second.instant_us + 2 ^ 64 - first.instant_us) % 2 ^ 64
  let d_cap = (second.cap + 2 ^ 64 - first.cap) % 2 ^ 64
  ret (
      store_tsf
        (record c {
          cap_anchor_ticks = first.cap;
          instant_anchor_us = signed 64 first.instant_us;
          us_per_tick_instant_q32 = us_per_tick d_instant d_cap;
        })
        first.tsf)
