-- ===== src/Estimator/Tests.antt =====
-- The estimator's theorems at a history of eight samples, 100 ms apart, whose server is ahead by 5 s
-- and up to 7 µs of jitter.
use esp_clock_sync.Prelude.{
  ℕ, ◌+◌, ◌-◌, ◌*◌, ◌/◌, ◌≤◌, ◌<◌, ◌≡◌, refl, List, [], ◌∷◌, some, map, arith, All, ret,
}
use esp_clock_sync.Prelude.Int.{pos}
use esp_clock_sync.Window.{keep_last}
use esp_clock_sync.Window.Push.{keep_last_all}
use esp_clock_sync.Estimator.{Sample, Estimator, window, new, refit, synced_ns_at, local_us_at}
use esp_clock_sync.Estimator.Offsets.{InRange}
use esp_clock_sync.Estimator.Fit.{Fits, refit-Fits}
use esp_clock_sync.Estimator.History.{Inv, observe_all, observe_all-new}
use esp_clock_sync.Estimator.Queries.{IsAhead, synced_ns_at_bounds, synced_ns_at-local_us_at}

abbrev sample : ℕ → ℕ → Sample
sample i jitter = record {
  server_ns = 5_000_000_000 + i * 100_000_000 + jitter;
  local_us = i * 100_000;
}

abbrev eight : List Sample
eight =
    sample 0 0
    ∷ sample 1 7_000
    ∷ sample 2 100
    ∷ sample 3 0
    ∷ sample 4 2_500
    ∷ sample 5 0
    ∷ sample 6 10
    ∷ sample 7 6_999
    ∷ []

eight-InRange : All InRange eight
eight-InRange = ground arith

eight-IsAhead : All (IsAhead 5_000_000_000 5_000_007_000) eight
eight-IsAhead = ground arith

observe_all-new_example :
    (e : Estimator) × (observe_all new eight ≡ ret e) × Inv e (keep_last window eight)
observe_all-new_example = observe_all-new eight eight-InRange

-- An estimator after these samples.
synced : (e : Estimator) × Inv e eight
synced =
    let run = observe_all-new eight eight-InRange in
    (run.0, rw (keep_last_all {A = Sample} window eight (omega arith)) at run.2)

synced_ns_at_bounds_example :
    (p : ℕ) × (synced_ns_at synced.0 900_000 ≡ some p)
    × (5_000_000_000 + 900_000 * 1_000 ≤ p)
    × (p ≤ 5_000_007_000 + 900_000 * 1_000)
synced_ns_at_bounds_example =
    synced_ns_at_bounds synced.0 eight 5_000_000_000 5_000_007_000 900_000 synced.1 (omega arith)
      eight-IsAhead (omega arith) (omega arith)

abbrev ahead_by_5s : Estimator
ahead_by_5s = record new { n = 8; offset_ns = pos 5_000_000_000 }

synced_ns_at-local_us_at_example :
    (t p : ℕ) × (local_us_at ahead_by_5s 6_000_000_999 ≡ some t)
    × (synced_ns_at ahead_by_5s t ≡ some p)
    × (p ≤ 6_000_000_999)
    × (6_000_000_999 < p + 1_000)
    × (t ≡ (6_000_000_999 - 5_000_000_000) / 1_000)
synced_ns_at-local_us_at_example =
    synced_ns_at-local_us_at ahead_by_5s 5_000_000_000 6_000_000_999 (omega arith) refl
      (omega arith) (omega arith)

abbrev holding_eight : Estimator
holding_eight = record new { samples = map some eight; head = 8; n = 8 }

refit-Fits_example : (e : Estimator) × (refit holding_eight ≡ ret e) × Fits eight holding_eight e
refit-Fits_example = refit-Fits holding_eight eight-InRange (omega arith) (omega arith)
