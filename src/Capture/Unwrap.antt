-- ===== src/Capture/Unwrap.antt =====
-- The full count of an edge from its 32 low bits and the time of the poll.
use native.Mathlib.Nat.{div-le_self}
use esp_clock_sync.Prelude.{
  ℕ, ◌+◌, ◌-◌, ◌*◌, ◌/◌, ◌%◌, ◌^◌, ◌≤◌, ◌<◌, ◌≡◌, none, some, arith, ◌==◌, if◌then◌else◌, ret,
}
use esp_clock_sync.Prelude.Int.{pos, pos--ℤ-pos, pos-+ℤ-pos, pos-*ℤ-pos, quot-pos}
use esp_clock_sync.Prelude.Words.{checked_i-ret, div_i-ret, wrap_i-fits, wrap_u-small, shl}
use esp_clock_sync.Capture.{
  Capture, closest, reconcile, unwrap_calibrated, unwrap_cap_raw, poll_ch0, poll_ch1,
}

reconcile-exact :
    (p t : ℕ)
    → p < 2 ^ 64
    → t < 2 ^ 64
    → p < t + 2 ^ 31
    → t < p + 2 ^ 31
    → reconcile p (t % 2 ^ 32) ≡ t
unfolding reconcile closest
reconcile-exact p t hp ht a b = ground arith

-- The calibration is there: the anchor of the `Instant` clock is `a`, and its slope is above zero.
pub record IsCalibrated (c : Capture) (a : ℕ) : Type 0 where
  pub instant_anchor : c.instant_anchor_us ≡ pos a
  pub slope : 0 < c.us_per_tick_instant_q32
  pub ticks_fit : c.cap_anchor_ticks < 2 ^ 64

-- The count that the line through the anchor predicts for the time `now`.
abbrev pub predicted : Capture → ℕ → ℕ → ℕ
predicted c a now = c.cap_anchor_ticks + (now - a) * 2 ^ 32 / c.us_per_tick_instant_q32

unwrap_cap_raw-exact :
    (c : Capture) (a now t : ℕ)
    → IsCalibrated c a
    → a ≤ now
    → now < 2 ^ 63
    → predicted c a now < 2 ^ 64
    → t < 2 ^ 64
    → predicted c a now < t + 2 ^ 31
    → t < predicted c a now + 2 ^ 31
    → unwrap_cap_raw c now (t % 2 ^ 32) ≡ ret t
unfolding unwrap_cap_raw unwrap_calibrated shl
unwrap_cap_raw-exact c a now t k late hn fits ht near near' =
    let q = c.us_per_tick_instant_q32 in
    let hq = k.slope in
    let hc = k.ticks_fit in
    let d = div-le_self ((now - a) * 2 ^ 32) c.us_per_tick_instant_q32 in
    rw
      (
        k.instant_anchor,
        pos--ℤ-pos now a late,
        checked_i-ret 128 (pos (now - a)) (omega arith),
        pos-*ℤ-pos (now - a) (2 ^ 32),
        wrap_i-fits 128 (pos ((now - a) * 2 ^ 32)) (omega arith) (omega arith),
        div_i-ret 128 (pos ((now - a) * 2 ^ 32)) c.us_per_tick_instant_q32 hq (omega arith),
        quot-pos ((now - a) * 2 ^ 32) c.us_per_tick_instant_q32,
        pos-+ℤ-pos,
        checked_i-ret 128 (pos (predicted c a now)) (omega arith),
        wrap_u-small 64 (predicted c a now) fits,
        reconcile-exact (predicted c a now) t fits ht near near',
      )
      (ground arith)

-- A poll of the channel 0 after an edge at the tick `t`, within 2^31 ticks of what the calibration
-- predicts for the time of the poll: where the low bits are those of the last edge it answers none
-- and changes nothing, else it answers `t`, keeps it as the last edge and counts it.
pub poll_ch0-exact :
    (c : Capture) (a now t : ℕ)
    → IsCalibrated c a
    → a ≤ now
    → now < 2 ^ 63
    → predicted c a now < 2 ^ 64
    → t < 2 ^ 64
    → predicted c a now < t + 2 ^ 31
    → t < predicted c a now + 2 ^ 31
    → poll_ch0 c now (t % 2 ^ 32)
      ≡ ret (
          if t % 2 ^ 32 == c.last_cap_ch0_raw % 2 ^ 32 then (c, none) else (
            record c {
              last_cap_ch0 = t;
              last_cap_ch0_raw = t % 2 ^ 32;
              cap_ch0_hits = (c.cap_ch0_hits + 1) % 2 ^ 64;
            },
            some t,
          ))
unfolding poll_ch0
poll_ch0-exact c a now t k late hn fits ht near near' =
    rw (unwrap_cap_raw-exact c a now t k late hn fits ht near near') (ground arith)

-- The same of the channel 1.
pub poll_ch1-exact :
    (c : Capture) (a now t : ℕ)
    → IsCalibrated c a
    → a ≤ now
    → now < 2 ^ 63
    → predicted c a now < 2 ^ 64
    → t < 2 ^ 64
    → predicted c a now < t + 2 ^ 31
    → t < predicted c a now + 2 ^ 31
    → poll_ch1 c now (t % 2 ^ 32)
      ≡ ret (
          if t % 2 ^ 32 == c.last_cap_ch1_raw % 2 ^ 32 then (c, none) else (
            record c {
              last_cap_ch1 = t;
              last_cap_ch1_raw = t % 2 ^ 32;
              cap_ch1_hits = (c.cap_ch1_hits + 1) % 2 ^ 64;
            },
            some t,
          ))
unfolding poll_ch1
poll_ch1-exact c a now t k late hn fits ht near near' =
    rw (unwrap_cap_raw-exact c a now t k late hn fits ht near near') (ground arith)
