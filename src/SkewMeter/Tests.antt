-- ===== src/SkewMeter/Tests.antt =====
-- The skew meter's theorems on a few edges.
use esp_clock_sync.Prelude.{
  ℕ, ◌*◌, ◌≤◌, ◌≡◌, ◌⊎◌, false, ◌↔◌, List, [], ◌∷◌, Option, none, arith, All, ret,
}
use esp_clock_sync.Prelude.Int.{ℤ, pos, negsuc}
use esp_clock_sync.SkewMeter.{Event, tx, rx, Cli, nearest, is_over, main}
use esp_clock_sync.Text.{codes}
use esp_clock_sync.SkewMeter.Trace.{IsClean}
use esp_clock_sync.SkewMeter.Exit.{main-IsClean}
use esp_clock_sync.SkewMeter.Stats.{DirStats, new_stats, p99}
use esp_clock_sync.SkewMeter.Nearest.{times, IsNearest, nearest-IsNearest}
use esp_clock_sync.SkewMeter.Recent.{count_le, count_lt, p99-rank}
use esp_clock_sync.SkewMeter.Summary.{abs_us, IsStats}
use esp_clock_sync.SkewMeter.Verdict.{record_all, record_all-IsStats}

abbrev sent : List Event
sent = tx 0 [] 1 1_000 ∷ tx 0 [] 2 2_000 ∷ []

nearest-IsNearest_example :
    (best : Option ℤ) × (nearest 500 1_900 none sent ≡ ret best)
    × IsNearest 500 1_900 (times sent) best
nearest-IsNearest_example =
    nearest-IsNearest 500 1_900 sent (omega arith) (omega arith, (omega arith, tt))

abbrev recent : List ℕ
recent = 30 ∷ 10 ∷ 20 ∷ []

p99-rank_example :
    (99 * 3 ≤ 100 * count_le (p99 recent) recent) × (100 * count_lt (p99 recent) recent ≤ 99 * 3)
p99-rank_example = p99-rank recent (omega arith)

-- Differences of 1 µs and of -30 µs.
abbrev deltas : List ℤ
deltas = pos 1_900 ∷ negsuc 29_999 ∷ []

record_all-IsStats_example :
    (s : DirStats) × (record_all (λ n. n) new_stats deltas ≡ ret s)
    × IsStats (λ n. n) s deltas
    × ((is_over 25 s ≡ false) ↔ All (λ d. abs_us d ≤ 25) deltas)
record_all-IsStats_example =
    record_all-IsStats (λ n. n) 25 deltas (omega arith, (omega arith, tt)) (omega arith)

-- One edge of the board 0 at 1 ms, which the board 1 receives 30 µs later by its clock.
abbrev crossing : List Event
crossing = tx 0 [] 1 1_000_000 ∷ rx 1 [] 1_030_000 ∷ []

abbrev options : Cli
options = record {
  ports = codes "/dev/ttyUSB0" ∷ codes "/dev/ttyUSB1" ∷ [];
  baud = 115_200;
  limit_us = 25;
  seconds = 60;
  match_window_ms = 50;
}

main-IsClean_example :
    (code : ℕ) × (main (λ n. n) (options) crossing ≡ ret code)
    × ((code ≡ 0) ⊎ (code ≡ 2))
    × ((code ≡ 0) ↔ IsClean (50 * 1_000_000) 25 [] [] crossing)
main-IsClean_example =
    main-IsClean (λ n. n) (options) crossing (omega arith) (omega arith)
      ((omega arith, tt), ((omega arith, omega arith), tt))
