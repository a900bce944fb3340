-- ===== src/TestRig/Tick.antt =====
-- The schedule of the pulses.
use esp_clock_sync.Prelude.{
  ℕ, ◌+◌, ◌-◌, ◌*◌, ◌/◌, ◌%◌, ◌^◌, ◌≤◌, ◌<◌, ◌≡◌, arith, ltb, if◌then◌else◌, ret,
}
use esp_clock_sync.Prelude.Words.{checked_u-ret}
use esp_clock_sync.TestRig.{pulse_period_ns, next_tick}

-- The next tick is the first multiple of the period that is 5 ms or more ahead. There is no panic
-- for a time below 2^127.
pub next_tick_first :
    (now : ℕ)
    → now < 2 ^ 127
    → (tick : ℕ) × (next_tick now ≡ ret tick)
      × (tick % pulse_period_ns ≡ 0)
      × (now + 5_000_000 ≤ tick)
      × (tick < now + 5_000_000 + pulse_period_ns)
unfolding next_tick
next_tick_first now h =
    let tick : ℕ = (now / pulse_period_ns + 1) * pulse_period_ns in
    (
      if ltb (tick - now) 5_000_000 then tick + pulse_period_ns else tick,
      rw
          (
            checked_u-ret 128 ((now / pulse_period_ns + 1) * pulse_period_ns) (omega arith),
            checked_u-ret 128 ((now / pulse_period_ns + 1) * pulse_period_ns + pulse_period_ns)
                (omega arith),
          )
          (ground arith),
      ground arith,
      ground arith,
      ground arith,
    )
