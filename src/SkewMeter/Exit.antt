-- ===== src/SkewMeter/Exit.antt =====
-- The loop of `main` on the events of two boards, and the exit code.
use mathlib.Core.List.{append_assoc, append-nil}
use esp_clock_sync.Prelude.{
  ℕ, ◌+◌, ◌*◌, ◌^◌, ◌≤◌, ◌<◌, ◌≡◌, refl, ◌⊎◌, ◌↔◌, arith, Bool, true, false, ◌||◌, List, [], ◌∷◌,
  ◌++◌, if◌then◌else◌, length, length-append, All, All-append, All-split, ret,
}
use esp_clock_sync.Prelude.Int.{ℤ}
use esp_clock_sync.SkewMeter.{Event, Cli, Meter, new, run_events, is_over, exit_code, main}
use esp_clock_sync.SkewMeter.Summary.{abs_us, new_stats-IsStats}
use esp_clock_sync.SkewMeter.Verdict.{verdict}
use esp_clock_sync.SkewMeter.Trace.{after0, after1, IsClean, IsTrace}
use esp_clock_sync.SkewMeter.Run.{IsRecorded}
use esp_clock_sync.SkewMeter.Judge.{Inv, on_event-Inv}

module _ (sqrt : ℕ → ℕ) (window limit : ℕ) (hw : window < 2 ^ 50) where
  -- Through any events: the loop ends with the statistics of the differences that have been found,
  -- and these are below the limit exactly where all events are good.
  run_events-Inv :
      (evs : List Event) (m : Meter) (sent0 sent1 : List Event) (ds0 ds1 : List ℤ)
      → Inv sqrt window m sent0 sent1 ds0 ds1
      → IsTrace sent0 sent1 evs
      → length ds0 + length evs ≤ 2 ^ 20
      → length ds1 + length evs ≤ 2 ^ 20
      → (m' : Meter) × (new0 new1 : List ℤ) × (run_events sqrt window m evs ≡ ret m')
        × IsRecorded sqrt m'.stats0 (ds0 ++ new0)
        × IsRecorded sqrt m'.stats1 (ds1 ++ new1)
        × ((All (λ d. abs_us d ≤ limit) new0 × All (λ d. abs_us d ≤ limit) new1)
            ↔ IsClean window limit sent0 sent1 evs)
  unfolding run_events
  run_events-Inv [] m sent0 sent1 ds0 ds1 v trace few0 few1 = (
    m,
    [],
    [],
    refl,
    rw append-nil v.records0,
    rw append-nil v.records1,
    ((λ h. tt), (λ h. (tt, tt))),
  )
  run_events-Inv (ev ∷ evs) m sent0 sent1 ds0 ds1 v (h, trace) few0 few1 =
      let (m1, x0, x1, step) =
        on_event-Inv sqrt window limit hw ev m sent0 sent1 ds0 ds1 v h (omega arith)
          (omega arith) in
      let len0 = length-append ds0 x0 in
      let len1 = length-append ds1 x1 in
      let s0 = step.short0 in
      let s1 = step.short1 in
      let (m', y0, y1, runs, r0, r1, judged) =
        run_events-Inv evs m1 (after0 sent0 ev) (after1 sent1 ev) (ds0 ++ x0) (ds1 ++ x1) step.inv
          trace (omega arith) (omega arith) in
      (
        m',
        x0 ++ y0,
        x1 ++ y1,
        rw step.runs runs,
        rw append_assoc at r0,
        rw append_assoc at r1,
        (
          (λ k.
              let (a0, b0) = All-split (λ d. abs_us d ≤ limit) x0 y0 k.0 in
              let (a1, b1) = All-split (λ d. abs_us d ≤ limit) x1 y1 k.1 in
              (step.judged.0 (a0, a1), judged.0 (b0, b1))),
          (λ k.
              let (a0, a1) = step.judged.1 k.0 in
              let (b0, b1) = judged.1 k.1 in
              (
                All-append (λ d. abs_us d ≤ limit) x0 y0 a0 b0,
                All-append (λ d. abs_us d ≤ limit) x1 y1 a1 b1,
              )),
        ),
      )

abbrev code_of : Bool → Bool → ℕ
code_of a b = if a || b then 2 else 0

either_zero : (a b : Bool) → (code_of a b ≡ 0) ↔ ((a ≡ false) × (b ≡ false))
either_zero false false = ((λ h. (refl, refl)), (λ h. refl))
either_zero false true = ((λ h. absurd (omega arith)), (λ h. cc))
either_zero true b = ((λ h. absurd (omega arith)), (λ h. cc))

either_code : (a b : Bool) → (code_of a b ≡ 0) ⊎ (code_of a b ≡ 2)
either_code a b = ground arith

new-Inv : (sqrt : ℕ → ℕ) (window : ℕ) → Inv sqrt window new [] [] [] []
new-Inv sqrt window = record {
  history0 = refl;
  history1 = refl;
  sends0 = record { order = tt; small = tt };
  sends1 = record { order = tt; small = tt };
  records0 = record { stats = new_stats-IsStats sqrt; in_range = tt };
  records1 = record { stats = new_stats-IsStats sqrt; in_range = tt };
}

-- For at most 2^20 events of two boards, a window below 2^50 ns and each board's edges in order,
-- `main` ends with no panic and with the code 0 or 2. The code is 0 exactly if each received edge is
-- within the limit, in whole µs, of an edge that the other board has sent within the window, or no
-- such edge is within the window; of the other board those of the last four windows count.
pub main-IsClean :
    (sqrt : ℕ → ℕ) (cli : Cli) (evs : List Event)
    → cli.match_window_ms * 1_000_000 < 2 ^ 50
    → length evs ≤ 2 ^ 20
    → IsTrace [] [] evs
    → (code : ℕ) × (main sqrt cli evs ≡ ret code)
      × ((code ≡ 0) ⊎ (code ≡ 2))
      × ((code ≡ 0) ↔ IsClean (cli.match_window_ms * 1_000_000) cli.limit_us [] [] evs)
unfolding main
main-IsClean sqrt cli evs hw few trace =
    let window = cli.match_window_ms * 1_000_000 in
    let limit = cli.limit_us in
    let (m, ds0, ds1, runs, r0, r1, judged) =
      run_events-Inv sqrt (cli.match_window_ms * 1_000_000) cli.limit_us hw evs new [] [] [] []
        (new-Inv sqrt (cli.match_window_ms * 1_000_000)) trace (omega arith) (omega arith) in
    let over0 = verdict sqrt cli.limit_us m.stats0 ds0 r0.stats in
    let over1 = verdict sqrt cli.limit_us m.stats1 ds1 r1.stats in
    let zero_is = either_zero (is_over cli.limit_us m.stats0) (is_over cli.limit_us m.stats1) in
    (
      exit_code cli.limit_us m,
      rw runs refl,
      either_code (is_over cli.limit_us m.stats0) (is_over cli.limit_us m.stats1),
      (
        (λ h. let (a, b) = zero_is.0 h in judged.0 (over0.0 a, over1.0 b)),
        (λ h. let (a, b) = judged.1 h in zero_is.1 (over0.1 a, over1.1 b)),
      ),
    )
