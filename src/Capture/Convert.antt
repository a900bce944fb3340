-- ===== src/Capture/Convert.antt =====
-- From ticks to µs: the accuracy of the fixed slope, and of the measured one at its own captures.
use native.Mathlib.Nat.{mul-le-mul_left, div-le_of_le-mul, mod-eq_of_lt, div-add-mod, mod-lt}
use esp_clock_sync.Prelude.{
  ℕ, ◌+◌, ◌-◌, ◌*◌, ◌/◌, ◌%◌, ◌^◌, ◌≤◌, ◌<◌, ◌≡◌, refl, Option, none, some, arith, ret,
}
use esp_clock_sync.Prelude.Int.{pos, shr, pos-+ℤ-pos, pos-*ℤ-pos}
use esp_clock_sync.Prelude.Words.{checked_i-ret, checked_u-ret, signed-small, wrap_u-small}
use esp_clock_sync.Capture.{
  Capture, cap_ticks_to_us, cap_ticks_to_mac_tsf_us, cap_ticks_to_instant_us, tsf_q32, us_per_tick,
  calibrate, store_tsf,
}

shr-pos : (k n : ℕ) → shr k (pos n) ≡ pos (n / 2 ^ k)
unfolding shr
shr-pos k n = refl

-- Ticks `d` behind the anchor, with a slope of at most a µs per tick.
cap_ticks_to_us-some :
    (a cap_anchor q d : ℕ)
    → a < 2 ^ 63
    → cap_anchor + d < 2 ^ 64
    → d < 2 ^ 63
    → q ≤ 2 ^ 32
    → cap_ticks_to_us (pos a) cap_anchor q (cap_anchor + d) ≡ ret (some (a + d * q / 2 ^ 32))
unfolding cap_ticks_to_us
cap_ticks_to_us-some a cap_anchor q d ha hc hd hq =
    let small : d * q ≤ d * 2 ^ 32 = mul-le-mul_left d hq in
    let back : (cap_anchor + d + 2 ^ 64 - cap_anchor) % 2 ^ 64 ≡ d = omega arith in
    rw
      (
        back,
        pos-*ℤ-pos d q,
        checked_i-ret 128 (pos (d * q)) (omega arith),
        shr-pos 32 (d * q),
        pos-+ℤ-pos a (d * q / 2 ^ 32),
        checked_i-ret 128 (pos (a + d * q / 2 ^ 32)) (omega arith),
        wrap_u-small 64 (a + d * q / 2 ^ 32) (omega arith),
      )
      (ground arith)

-- With the fixed slope an edge `d` ticks after the anchor is converted to the anchor's TSF and `u`
-- µs, where `u` is at most the whole µs of `d` at 80 ticks each, and falls behind by 1 µs and 1 µs
-- more for each 5 * 2^32 ticks.
pub cap_ticks_to_mac_tsf_us_near :
    (c : Capture) (a d : ℕ)
    → c.tsf_anchor_us ≡ pos a
    → c.us_per_tick_tsf_q32 ≡ tsf_q32
    → a < 2 ^ 63
    → c.cap_anchor_ticks + d < 2 ^ 64
    → d < 2 ^ 63
    → (u : ℕ) × (cap_ticks_to_mac_tsf_us c (c.cap_anchor_ticks + d) ≡ ret (some (a + u)))
      × (u ≤ d / 80)
      × (d / 80 ≤ u + 1 + d / (5 * 2 ^ 32))
unfolding cap_ticks_to_mac_tsf_us
cap_ticks_to_mac_tsf_us_near c a d anchor slope ha hc hd = (
  d * tsf_q32 / 2 ^ 32,
  rw (anchor, slope, cap_ticks_to_us-some a c.cap_anchor_ticks tsf_q32 d ha hc hd (omega arith))
      (ground arith),
  omega arith,
  omega arith,
)

slope_exact :
    (m n : ℕ)
    → 0 < n
    → n < 2 ^ 32
    → (n * (m * 2 ^ 32 / n) / 2 ^ 32 ≤ m) × (m ≤ n * (m * 2 ^ 32 / n) / 2 ^ 32 + 1)
slope_exact m n hn h =
    let e = div-add-mod (m * 2 ^ 32) n in
    let r = mod-lt (m * 2 ^ 32) hn in (omega arith, omega arith)

slope_le : (m n : ℕ) → m ≤ n → m * 2 ^ 32 / n ≤ 2 ^ 32
slope_le m n h = div-le_of_le-mul n (omega arith)

us_per_tick_small : (m n : ℕ) → 0 < n → m ≤ n → us_per_tick m n ≡ m * 2 ^ 32 / n
unfolding us_per_tick
us_per_tick_small m n hn h =
    let s = slope_le m n h in
    rw (mod-eq_of_lt {n = m * 2 ^ 32 / n} {m = 2 ^ 64} (omega arith)) (ground arith)

store_tsf_keeps :
    (c : Capture) (tsf : Option ℕ)
    → ((store_tsf c tsf).instant_anchor_us ≡ c.instant_anchor_us)
      × ((store_tsf c tsf).cap_anchor_ticks ≡ c.cap_anchor_ticks)
      × ((store_tsf c tsf).us_per_tick_instant_q32 ≡ c.us_per_tick_instant_q32)
store_tsf_keeps c none = (refl, refl, refl)
store_tsf_keeps c (some t) = (refl, refl, refl)

cap_ticks_to_instant_us-some :
    (c : Capture) (a cap_anchor q d : ℕ)
    → (c.instant_anchor_us ≡ pos a)
      × (c.cap_anchor_ticks ≡ cap_anchor)
      × (c.us_per_tick_instant_q32 ≡ q)
    → a < 2 ^ 63
    → cap_anchor + d < 2 ^ 64
    → d < 2 ^ 63
    → q ≤ 2 ^ 32
    → cap_ticks_to_instant_us c (cap_anchor + d) ≡ ret (some (a + d * q / 2 ^ 32))
unfolding cap_ticks_to_instant_us
cap_ticks_to_instant_us-some c a cap_anchor q d (e, f, g) ha hc hd hq =
    rw (e, f, g, cap_ticks_to_us-some a cap_anchor q d ha hc hd hq) (ground arith)

-- A calibration from captures that are `n` ticks and `m` µs apart, at one tick a µs or faster, does
-- not panic, and converts the second capture to the `Instant` that was read with it, or 1 µs less.
pub calibrate-cap_ticks_to_instant_us :
    (c : Capture) (cap0 instant0 n m : ℕ) (tsf0 tsf1 : Option ℕ)
    → 0 < n
    → n < 2 ^ 32
    → m ≤ n
    → cap0 + n < 2 ^ 63
    → instant0 < 2 ^ 62
    → (c' : Capture) × (u : ℕ) × (calibrate c
          (record { cap = cap0; instant_us = instant0; tsf = tsf0 })
          (record { cap = cap0 + n; instant_us = instant0 + m; tsf = tsf1 })
        ≡ ret c')
      × (cap_ticks_to_instant_us c' (cap0 + n) ≡ ret (some (instant0 + u)))
      × (u ≤ m)
      × (m ≤ u + 1)
unfolding calibrate
calibrate-cap_ticks_to_instant_us c cap0 i0 n m tsf0 tsf1 hn fits slow hc hi =
    let base : Capture = record c {
      cap_anchor_ticks = cap0;
      instant_anchor_us = pos i0;
      us_per_tick_instant_q32 = m * 2 ^ 32 / n;
    } in
    let s = slope_exact m n hn fits in
    let d_instant : (i0 + m + 2 ^ 64 - i0) % 2 ^ 64 ≡ m = omega arith in
    let d_cap : (cap0 + n + 2 ^ 64 - cap0) % 2 ^ 64 ≡ n = omega arith in
    (
      store_tsf base tsf0,
      n * (m * 2 ^ 32 / n) / 2 ^ 32,
      rw
          (
            checked_u-ret 64 (i0 + 4_000_000) (omega arith),
            signed-small 64 i0 (omega arith),
            d_instant,
            d_cap,
            us_per_tick_small m n hn slow,
          )
          refl,
      cap_ticks_to_instant_us-some (store_tsf base tsf0) i0 cap0 (m * 2 ^ 32 / n) n
          (store_tsf_keeps base tsf0) (omega arith) (omega arith) (omega arith) (slope_le m n slow),
      s.0,
      s.1,
    )
