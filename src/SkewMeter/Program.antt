-- ===== src/SkewMeter/Program.antt =====
-- The whole of the skew meter: its loop runs the events that it hears before the deadline.
use esp_clock_sync.Prelude.{
  ℕ, zero, suc, ◌-◌, ◌*◌, ◌^◌, ◌≤◌, ◌<◌, ◌≡◌, refl, sym, ap, ◌∙◌, ◌⊎◌, ◌↔◌, inl, inr, arith, List,
  [], ◌∷◌, ◌++◌, none, ltb, ◌==◌, false, if◌then◌else◌, Bool-cases, length, All, true, Exec, ret,
  panic, ◌>>=◌,
}
use esp_clock_sync.Text.{is_empty}
use esp_clock_sync.SkewMeter.{Event, tx, rx, Cli, Meter, new, on_event, run_events, exit_code, main}
use esp_clock_sync.SkewMeter.Trace.{IsTrace, IsClean}
use esp_clock_sync.SkewMeter.Exit.{main-IsClean}
use esp_clock_sync.SkewMeter.Reader.{Answers, start, spawn_reader, spawn_readers}
use esp_clock_sync.SkewMeter.Report.{final_lines}
use esp_clock_sync.SkewMeter.Loop.{
  Received, event, timeout, disconnected, Turn, Live, print_stats, after_event, handle, turn, serve,
  exited, watch, program,
}

abbrev hears : Received → List Event → List Event
hears (event ev) rest = ev ∷ rest
hears timeout rest = rest
hears disconnected rest = []

-- The events of the turns before the deadline, up to the first turn that finds no sender.
unfoldable pub heard : ℕ → List Turn → List Event
heard deadline [] = []
heard deadline (t ∷ ts) = if ltb t.now deadline then hears t.received (heard deadline ts) else []

abbrev meter_of : Exec Live → Exec Meter
meter_of e = e >>= λ s. ret s.meter

print_stats-meter :
    (limit_us : ℕ) (t : Turn) (s : Live) → (print_stats limit_us t s).meter ≡ s.meter
unfolding print_stats
print_stats-meter limit_us t s = refl

-- Printing leaves the meter as it is, and does not panic.
after_event-meter :
    (cli : Cli) (t : Turn) (ev : Event) (s : Live)
    → (s' : Live) × (after_event cli t ev s ≡ ret s') × (s'.meter ≡ s.meter)
unfolding after_event print_stats
after_event-meter cli t (tx device mac seq synced_ns) s = (s, refl, refl)
after_event-meter cli t (rx zero mac synced_ns) s = elim (Bool-cases (is_empty s.meter.history1)) [
  | inl none_sent ↦ (s, rw none_sent refl, refl)
  | inr some_sent ↦ (print_stats cli.limit_us t s, rw some_sent refl, refl)
]
after_event-meter cli t (rx (suc k) mac synced_ns) s =
    let other : 1 - suc k ≡ 0 = omega arith in
    elim (Bool-cases (is_empty s.meter.history0)) [
      | inl none_sent ↦ (s, rw (other, none_sent) refl, refl)
      | inr some_sent ↦ (print_stats cli.limit_us t s, rw (other, some_sent) refl, refl)
    ]

module _ (sqrt : ℕ → ℕ) (cli : Cli) where
  handle-rest :
      (t : Turn) (ev : Event) (s : Live) (evs : List Event) (rest : Live → Exec Live)
      → ((s' : Live)
          → meter_of (rest s') ≡ run_events sqrt (cli.match_window_ms * 1_000_000) s'.meter evs)
      → meter_of (handle sqrt cli t ev s >>= rest)
        ≡ run_events sqrt (cli.match_window_ms * 1_000_000) s.meter (ev ∷ evs)
  unfolding handle run_events
  handle-rest t ev s evs rest h = after (on_event sqrt (cli.match_window_ms * 1_000_000) s.meter ev)
    where
      after :
          (e : Exec Meter)
          → meter_of ((e >>= λ m. after_event cli t ev (record s { meter = m })) >>= rest)
            ≡ (e >>= λ m'. run_events sqrt (cli.match_window_ms * 1_000_000) m' evs)
      after (ret m) =
          let (s', runs, same) = after_event-meter cli t ev (record s { meter = m }) in
          rw runs (h s' ∙ ap (λ m'. run_events sqrt (cli.match_window_ms * 1_000_000) m' evs) same)
      after panic = refl

  turn-run_events :
      (t : Turn) (r : Received) (s : Live) (evs : List Event) (rest : Live → Exec Live)
      → ((s' : Live)
          → meter_of (rest s') ≡ run_events sqrt (cli.match_window_ms * 1_000_000) s'.meter evs)
      → meter_of (turn sqrt cli t r rest s)
        ≡ run_events sqrt (cli.match_window_ms * 1_000_000) s.meter (hears r evs)
  unfolding turn print_stats run_events
  turn-run_events t (event ev) s evs rest h = handle-rest t ev s evs rest h
  turn-run_events t timeout s evs rest h = h (print_stats cli.limit_us t s)
  turn-run_events t disconnected s evs rest h = refl

  -- The meter of the loop is that of the events that are heard, and the loop panics where they do.
  serve-run_events :
      (deadline : ℕ) (ts : List Turn) (s : Live)
      → meter_of (serve sqrt cli deadline ts s)
        ≡ run_events sqrt (cli.match_window_ms * 1_000_000) s.meter (heard deadline ts)
  unfolding serve heard run_events
  serve-run_events deadline [] s = refl
  serve-run_events deadline (t ∷ ts) s = elim (Bool-cases (ltb t.now deadline)) [
    | inl early ↦ rw early (
        turn-run_events t t.received s (heard deadline ts) (λ s'. serve sqrt cli deadline ts s')
          (λ s'. serve-run_events deadline ts s'))
    | inr late ↦ rw late refl
  ]

  -- The exit code is that of `main` on the events that are heard.
  serve-main :
      (deadline code : ℕ) (ts : List Turn) (s : Live)
      → s.meter ≡ new
      → main sqrt cli (heard deadline ts) ≡ ret code
      → (s' : Live) × (serve sqrt cli deadline ts s ≡ ret s')
        × (exit_code cli.limit_us s'.meter ≡ code)
  unfolding main
  serve-main deadline code ts s fresh h = end (serve sqrt cli deadline ts s) refl (
      serve-run_events deadline ts s
      ∙ ap (λ m. run_events sqrt (cli.match_window_ms * 1_000_000) m (heard deadline ts)) fresh)
    where
      end :
          (e : Exec Live)
          → serve sqrt cli deadline ts s ≡ e
          → meter_of e ≡ run_events sqrt (cli.match_window_ms * 1_000_000) new (heard deadline ts)
          → (s' : Live) × (serve sqrt cli deadline ts s ≡ ret s')
            × (exit_code cli.limit_us s'.meter ≡ code)
      end (ret s') runs meters = (s', runs, let out = rw (sym meters) at h in cc)
      end panic runs meters = absurd (let out = rw (sym meters) at h in cc)

-- For two ports that open and readers that start, at most 2^20 events heard in the order of each
-- board's edges and a window below 2^50 ns, the program ends with no panic, with the code 0 or 2. The
-- code is 0 exactly if each received edge that was heard is within the limit of one that the other
-- board has sent within the window, or none was.
pub program-IsClean :
    (sqrt : ℕ → ℕ) (add : ℕ → ℕ → Exec ℕ) (answers : Answers) (cli : Cli)
    (begin last_print deadline : ℕ) (ts : List Turn)
    → start answers cli.ports ≡ none
    → add begin cli.seconds ≡ ret deadline
    → cli.match_window_ms * 1_000_000 < 2 ^ 50
    → length (heard deadline ts) ≤ 2 ^ 20
    → IsTrace [] [] (heard deadline ts)
    → (code : ℕ) × (lines : List (List ℕ)) × (program sqrt add answers cli begin last_print ts
        ≡ ret (exited code lines))
      × ((code ≡ 0) ⊎ (code ≡ 2))
      × ((code ≡ 0)
          ↔ IsClean (cli.match_window_ms * 1_000_000) cli.limit_us [] [] (heard deadline ts))
unfolding program watch
program-IsClean sqrt add answers cli begin last_print deadline ts opened sum hw few trace =
    let (code, runs, either, clean) = main-IsClean sqrt cli (heard deadline ts) hw few trace in
    let (s, serves, is_code) =
      serve-main sqrt cli deadline code ts
        (record { meter = new; last_print = last_print; lines = [] }) refl runs in
    (code, s.lines ++ final_lines s.meter, rw (opened, sum, serves, is_code) refl, either, clean)

-- The loop is reached exactly with two ports that open and both readers spawned.
pub start-none :
    (answers : Answers) (ports : List (List ℕ))
    → (start answers ports ≡ none) ↔ (
        (length ports ≡ 2)
        × All (λ p. answers.opens p ≡ true) ports
        × (answers.spawns 0 ≡ true)
        × (answers.spawns 1 ≡ true))
unfolding start spawn_readers spawn_reader
start-none answers [] = ground arith
start-none answers (a ∷ []) = ground arith
start-none answers (a ∷ b ∷ []) = ground arith
start-none answers (a ∷ b ∷ c ∷ ps) =
    let over : (suc (suc (suc (length ps))) == 2) ≡ false = ground arith in
    ((λ h. absurd (let no = rw over at h in cc)), (λ h. absurd (omega arith)))
