-- ===== src/Capture/Tests.antt =====
-- The capture timer's theorems on a timer that runs at 80 ticks a µs.
use esp_clock_sync.Prelude.{
  ℕ, ◌+◌, ◌*◌, ◌/◌, ◌%◌, ◌^◌, ◌≤◌, ◌≡◌, refl, List, [], ◌∷◌, none, some, arith, ret, ℕ_discrete,
}
use esp_clock_sync.Prelude.Int.{pos}
use esp_clock_sync.Capture.{
  Capture, new, new_packed, tsf_q32, poll_ch0, cap_ticks_to_mac_tsf_us, cap_ticks_to_instant_us,
  calibrate,
}
use esp_clock_sync.Capture.Unwrap.{IsCalibrated, poll_ch0-exact}
use esp_clock_sync.Capture.Sequence.{captures, captures-exact, captures_stale}
use esp_clock_sync.Capture.System.{
  outside, latched, loaded, System, update, Reach, here, next, latch, load, exchange, retry,
}
use esp_clock_sync.Capture.Linear.{newest, IsSequential, Reach-IsSequential}
use esp_clock_sync.Capture.Convert.{cap_ticks_to_mac_tsf_us_near, calibrate-cap_ticks_to_instant_us}

-- Two edges have been seen, both at the low bits 77.
abbrev running : Capture
running = record new {
  cap_anchor_ticks = 1_000;
  instant_anchor_us = pos 500;
  tsf_anchor_us = pos 9_000;
  us_per_tick_instant_q32 = tsf_q32;
  us_per_tick_tsf_q32 = tsf_q32;
  last_cap_ch0_raw = 77;
  last_cap_ch1_raw = 77;
}

running-IsCalibrated : IsCalibrated running 500
running-IsCalibrated = record {
  instant_anchor = refl;
  slope = omega arith;
  ticks_fit = omega arith;
}

-- 100 s after the anchor the register has wrapped once.
poll_ch0-exact_example :
    poll_ch0 running 100_000_500 (8_000_000_000 % 2 ^ 32)
    ≡ ret (
      record running {
        last_cap_ch0 = 8_000_000_000;
        last_cap_ch0_raw = 8_000_000_000 % 2 ^ 32;
        cap_ch0_hits = 1;
      },
      some 8_000_000_000,
    )
poll_ch0-exact_example =
    poll_ch0-exact running 500 100_000_500 8_000_000_000 running-IsCalibrated (omega arith)
      (omega arith) (omega arith) (omega arith) (omega arith) (omega arith)

-- Captures that pass the end of the register.
abbrev counts : List ℕ
counts = 4_000_000_000 ∷ 5_000_000_000 ∷ 9_000_000_000 ∷ []

captures-exact_example : captures 10 counts ≡ counts
captures-exact_example = captures-exact counts 10 (
  omega arith,
  omega arith,
  omega arith,
  (omega arith, omega arith, omega arith, (omega arith, omega arith, omega arith, tt)),
)

-- The capture at 990 has its exchange after the one at 1000.
captures_stale_example : captures 1_000 (990 ∷ 2_000 ∷ []) ≡ (990 + 2 ^ 32) ∷ (2_000 + 2 ^ 32) ∷ []
captures_stale_example =
    captures_stale 1_000 990 (2_000 ∷ []) (omega arith) (omega arith) (omega arith)
      (omega arith, omega arith, omega arith, tt)

abbrev idle : System
idle = record { packed = 7; pc = λ i. outside; returned = [] }

-- The context 2 overtakes the context 1, whose first exchange fails and whose second one finds the
-- later count.
abbrev both_latched : System
both_latched = record idle { pc = update (update idle.pc 1 (latched 20)) 2 (latched 30) }

abbrev both_loaded : System
both_loaded = record idle { pc = update (update both_latched.pc 1 (loaded 20 7)) 2 (loaded 30 7) }

abbrev overtaken : System
overtaken = record { packed = 30; pc = update both_loaded.pc 2 outside; returned = (30, 30) ∷ [] }

abbrev retried : System
retried = record overtaken { pc = update (update overtaken.pc 1 (latched 20)) 1 (loaded 20 30) }

abbrev done : System
done = record {
  packed = 20 + 2 ^ 32;
  pc = update retried.pc 1 outside;
  returned = (20, 20 + 2 ^ 32) ∷ (30, 30) ∷ [];
}

overtaken_steps : Reach idle overtaken
unfolding new_packed ℕ_discrete
overtaken_steps =
    next
      (next (next (next (next here (latch 1 20 refl)) (latch 2 30 refl)) (load 1 20 refl))
        (load 2 30 refl))
      (exchange 2 30 7 refl refl)

done_steps : Reach idle done
unfolding new_packed ℕ_discrete
done_steps =
    next (next (next overtaken_steps (retry 1 20 7 refl (omega arith))) (load 1 20 refl))
      (exchange 1 20 30 refl refl)

Reach-IsSequential_example : IsSequential done.returned 7 × (done.packed ≡ newest done.returned 7)
Reach-IsSequential_example = Reach-IsSequential idle done refl done_steps (omega arith)

cap_ticks_to_mac_tsf_us_near_example :
    (u : ℕ) × (cap_ticks_to_mac_tsf_us running 81_000 ≡ ret (some (9_000 + u)))
    × (u ≤ 1_000)
    × (1_000 ≤ u + 1 + 80_000 / (5 * 2 ^ 32))
cap_ticks_to_mac_tsf_us_near_example =
    cap_ticks_to_mac_tsf_us_near running 9_000 80_000 refl refl (omega arith) (omega arith)
      (omega arith)

calibrate-cap_ticks_to_instant_us_example :
    (c' : Capture) × (u : ℕ) × (calibrate new
        (record { cap = 1_000; instant_us = 500; tsf = some 9_000 })
        (record { cap = 320_001_000; instant_us = 4_000_500; tsf = none })
      ≡ ret c')
    × (cap_ticks_to_instant_us c' 320_001_000 ≡ ret (some (500 + u)))
    × (u ≤ 4_000_000)
    × (4_000_000 ≤ u + 1)
calibrate-cap_ticks_to_instant_us_example =
    calibrate-cap_ticks_to_instant_us new 1_000 500 320_000_000 4_000_000 (some 9_000) none
      (omega arith) (omega arith) (omega arith) (omega arith) (omega arith)
