-- ===== src/SkewMeter.antt =====
-- crates/skew-meter/src/main.rs: the events of two boards, the match of a received edge with the
-- nearest sent one, and the statistics of each direction. Here the
-- events that `main` receives are a list; Reader has the ports, and Loop the clock and the channel.
pub mod Stats
pub mod Report
pub mod Parse
pub mod Nearest
pub mod History
pub mod Recent
pub mod Summary
pub mod Verdict
pub mod Trace
pub mod Run
pub mod Judge
pub mod Exit
pub mod Reader
pub mod Loop
pub mod Program
mod Tests
use esp_clock_sync.Prelude.{
  ℕ, ◌+◌, ◌-◌, ◌*◌, ◌^◌, Bool, true, false, ◌&&◌, ◌||◌, List, [], ◌∷◌, ◌++◌, Option, none, some,
  ltb, leb, ◌==◌, if◌then◌else◌, Exec, ret, panic, ◌>>=◌,
}
use esp_clock_sync.Prelude.Int.{ℤ, ◌-ℤ◌, abs}
use esp_clock_sync.Prelude.Words.{checked_u, checked_i, signed}
use Stats.{DirStats, new_stats, record_delta}

-- Devices are 0 and 1. A text is a list of code points.
pub data Event : Type 0 where
  tx : (device : ℕ) (mac : List ℕ) (seq synced_ns : ℕ) → Event
  rx : (device : ℕ) (mac : List ℕ) (synced_ns : ℕ) → Event

pub record Cli : Type 0 where
  pub ports : List (List ℕ)
  pub baud : ℕ
  pub limit_us : ℕ
  pub seconds : ℕ
  pub match_window_ms : ℕ

-- `tx_history` and `stats_per_dir`, an entry for each device that sends.
pub record Meter : Type 0 where
  pub history0 : List Event
  pub history1 : List Event
  pub stats0 : DirStats
  pub stats1 : DirStats

abbrev pub new : Meter
new = record { history0 = []; history1 = []; stats0 = new_stats; stats1 = new_stats }

-- Removal from the front while its time is below the cutoff.
unfoldable pub prune : ℕ → List Event → List Event
prune cutoff [] = []
prune cutoff (tx device mac seq synced_ns ∷ q) =
    let rest = prune cutoff q in
    if ltb synced_ns cutoff then rest else tx device mac seq synced_ns ∷ q
prune cutoff (rx device mac synced_ns ∷ q) = rx device mac synced_ns ∷ q

-- The history of a device after its next edge was sent.
unfoldable pub push_tx : ℕ → List Event → Event → ℕ → Exec (List Event)
push_tx match_window_ns q ev synced_ns = do
  span ← checked_u 128 (match_window_ns * 4)
  ret (prune (synced_ns - span) (q ++ ev ∷ []))

-- `best.map_or(true, |(_, b)| d.unsigned_abs() < b.unsigned_abs())`
abbrev pub is_nearer : ℤ → Option ℤ → Bool
is_nearer d none = true
is_nearer d (some b) = ltb (abs d) (abs b)

-- The loop over the history: the difference that is nearest to zero and within the window. Of the
-- pair that the source keeps, the time is not used.
unfoldable pub nearest : ℕ → ℕ → Option ℤ → List Event → Exec (Option ℤ)
nearest match_window_ns rx_sync best [] = ret best
nearest match_window_ns rx_sync best (tx device mac seq synced_ns ∷ q) = do
  d ← checked_i 128 (signed 128 rx_sync -ℤ signed 128 synced_ns)
  nearest match_window_ns rx_sync
      (if leb (abs d) match_window_ns && is_nearer d best then some d else best) q
nearest match_window_ns rx_sync best (rx device mac synced_ns ∷ q) =
    nearest match_window_ns rx_sync best q

abbrev pub direction_idx : ℕ → ℕ → ℕ
direction_idx tx_dev rx_dev = tx_dev

-- An index into an array of two, which panics out of range.
abbrev pub choose {ℓ} : {A : Type ℓ} → ℕ → A → A → Exec A
choose i a b = if i == 0 then ret a else if i == 1 then ret b else panic

abbrev set_history : Meter → ℕ → List Event → Meter
set_history m device q =
    if device == 0 then record m { history0 = q } else record m { history1 = q }

abbrev set_stats : Meter → ℕ → DirStats → Meter
set_stats m dir s = if dir == 0 then record m { stats0 = s } else record m { stats1 = s }

unfoldable pub record_match : (ℕ → ℕ) → Meter → ℕ → Option ℤ → Exec Meter
record_match sqrt m dir none = ret m
record_match sqrt m dir (some delta_ns) = do
  stats ← choose dir m.stats0 m.stats1
  stats' ← record_delta sqrt stats delta_ns
  ret (set_stats m dir stats')

-- The match on an event in the loop of `main`.
unfoldable pub on_event : (ℕ → ℕ) → ℕ → Meter → Event → Exec Meter
on_event sqrt match_window_ns m (tx device mac seq synced_ns) = do
  q ← choose device m.history0 m.history1
  q' ← push_tx match_window_ns q (tx device mac seq synced_ns) synced_ns
  ret (set_history m device q')
on_event sqrt match_window_ns m (rx rx_dev mac rx_sync) = do
  other ← if leb rx_dev 1 then ret (1 - rx_dev) else panic
  q ← choose other m.history0 m.history1
  best ← nearest match_window_ns rx_sync none q
  record_match sqrt m (direction_idx other rx_dev) best

unfoldable pub run_events : (ℕ → ℕ) → ℕ → Meter → List Event → Exec Meter
run_events sqrt match_window_ns m [] = ret m
run_events sqrt match_window_ns m (ev ∷ evs) =
    on_event sqrt match_window_ns m ev >>= λ m'. run_events sqrt match_window_ns m' evs

abbrev pub is_over : ℕ → DirStats → Bool
is_over limit_us s = if s.n == 0 then false else ltb limit_us s.max_abs_us

-- The exit code of `main`.
abbrev pub exit_code : ℕ → Meter → ℕ
exit_code limit_us m = if is_over limit_us m.stats0 || is_over limit_us m.stats1 then 2 else 0

-- `main`, given the events that arrive before the deadline: its exit code.
unfoldable pub main : (ℕ → ℕ) → Cli → List Event → Exec ℕ
main sqrt cli evs = do
  m ← run_events sqrt (cli.match_window_ms * 1_000_000) new evs
  ret (exit_code cli.limit_us m)
