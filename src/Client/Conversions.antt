-- ===== src/Client/Conversions.antt =====
-- crates/clock-sync-client/src/lib.rs: the conversions between the board's TSF, the access point's
-- TSF and the `Instant` clock.
use esp_clock_sync.Prelude.{ℕ, ◌-◌, ◌^◌, ◌||◌, Option, none, some, if◌then◌else◌, and_then}
use esp_clock_sync.Prelude.Int.{ℤ, pos, ◌+ℤ◌, ◌-ℤ◌, ltb_ℤ, eqb_ℤ}
use esp_clock_sync.Prelude.Words.{wrap_i, wrap_u, signed}
use esp_clock_sync.AlphaBeta.{predict}
use esp_clock_sync.Client.{Client, delta_unset}

-- `if a < 0 { None } else { Some(a as u64) }`
abbrev pub some_u64 : ℤ → Option ℕ
some_u64 a = if ltb_ℤ a (pos 0) then none else some (wrap_u 64 a)

-- `if a < 0 || a > u64::MAX as i128 { None } else { Some(a as u64) }`
abbrev pub u64_of : ℤ → Option ℕ
u64_of a = if ltb_ℤ a (pos 0) || ltb_ℤ (pos (2 ^ 64 - 1)) a then none else some (wrap_u 64 a)

-- `to + (t - from)` with wrapping `i64` arithmetic.
unfoldable pub shift_tsf : ℕ → ℕ → ℕ → Option ℕ
shift_tsf from to t =
    let delta = wrap_i 64 (signed 64 t -ℤ signed 64 from) in
    some_u64 (wrap_i 64 (signed 64 to +ℤ delta))

unfoldable pub own_tsf_to_ap_tsf : Client → ℕ → Option ℕ
own_tsf_to_ap_tsf c own_tsf = elim (c.latest_beacon) [
  | none ↦ none
  | some a ↦ shift_tsf a.own_tsf_us a.ap_tsf_us own_tsf
]

unfoldable pub instant_to_ap_tsf : Client → ℕ → Option ℕ
instant_to_ap_tsf c instant_us = elim (predict c.instant_filter (signed 64 instant_us)) [
  | none ↦ none
  | some offset ↦ u64_of (pos instant_us +ℤ offset)
]

-- Two rounds of the iteration for `instant + offset(instant) = ap_tsf`.
unfoldable pub ap_tsf_to_instant : Client → ℕ → Option ℕ
ap_tsf_to_instant c ap_tsf_us = and_then (predict c.instant_filter (signed 64 ap_tsf_us)) λ off1.
    let inst1 = wrap_i 64 (signed 64 ap_tsf_us -ℤ off1) in
    and_then (predict c.instant_filter inst1)
      λ off2. some_u64 (wrap_i 64 (signed 64 ap_tsf_us -ℤ off2))

-- The difference of a u64 and an i64 is exact at 128 bits.
unfoldable pub instant_us_to_tsf_us : Client → ℕ → Option ℕ
instant_us_to_tsf_us c instant_us =
    if eqb_ℤ c.instant_minus_tsf delta_unset
    then none
    else some_u64 (pos instant_us -ℤ c.instant_minus_tsf)
