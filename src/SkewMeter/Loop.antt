-- ===== src/SkewMeter/Loop.antt =====
-- crates/skew-meter/src/main.rs, the loop of `main` with its clock and its channel. A turn is what
-- the loop reads from them; times are in ns.
use esp_clock_sync.Prelude.{
  ℕ, ◌-◌, ◌*◌, List, [], ◌∷◌, ◌++◌, Option, none, some, ltb, if◌then◌else◌, Exec, ret, ◌>>=◌,
}
use esp_clock_sync.Text.{is_empty}
use esp_clock_sync.SkewMeter.{Event, tx, rx, Cli, Meter, new, choose, on_event, exit_code}
use esp_clock_sync.SkewMeter.Reader.{StartError, Answers, start}
use esp_clock_sync.SkewMeter.Report.{maybe_print_stats, final_lines}

-- What `recv_timeout` answers.
pub data Received : Type 0 where
  event : (ev : Event) → Received
  timeout : Received
  disconnected : Received

-- The clock at the test of the loop, the answer of the channel, and the clock where
-- `maybe_print_stats` asks for the time elapsed and where it sets the time of the print.
pub record Turn : Type 0 where
  pub now : ℕ
  pub received : Received
  pub asked : ℕ
  pub printed : ℕ

-- The variables of the loop, and the lines that have been printed.
pub record Live : Type 0 where
  pub meter : Meter
  pub last_print : ℕ
  pub lines : List (List ℕ)

unfoldable pub print_stats : ℕ → Turn → Live → Live
print_stats limit_us t s =
    let elapsed = t.asked - s.last_print in
    let more = maybe_print_stats (t.asked - s.last_print) s.meter limit_us in
    record {
      meter = s.meter;
      last_print = if ltb elapsed 1_000_000_000 then s.last_print else t.printed;
      lines = s.lines ++ more;
    }

-- After a received edge the statistics are printed, but not where the other board has sent none.
unfoldable pub after_event : Cli → Turn → Event → Live → Exec Live
after_event cli t (tx device mac seq synced_ns) s = ret s
after_event cli t (rx rx_dev mac synced_ns) s = do
  q ← choose (1 - rx_dev) s.meter.history0 s.meter.history1
  ret (if is_empty q then s else print_stats cli.limit_us t s)

unfoldable pub handle : (ℕ → ℕ) → Cli → Turn → Event → Live → Exec Live
handle sqrt cli t ev s = do
  m ← on_event sqrt (cli.match_window_ms * 1_000_000) s.meter ev
  after_event cli t ev (record s { meter = m })

-- The match on what was received, given the rest of the loop.
unfoldable pub turn : (ℕ → ℕ) → Cli → Turn → Received → (Live → Exec Live) → Live → Exec Live
turn sqrt cli t (event ev) rest s = handle sqrt cli t ev s >>= rest
turn sqrt cli t timeout rest s = rest (print_stats cli.limit_us t s)
turn sqrt cli t disconnected rest s = ret s

unfoldable pub serve : (ℕ → ℕ) → Cli → ℕ → List Turn → Live → Exec Live
serve sqrt cli deadline [] s = ret s
serve sqrt cli deadline (t ∷ ts) s =
    if ltb t.now deadline
    then turn sqrt cli t t.received (λ s'. serve sqrt cli deadline ts s') s
    else ret s

-- `main` up to its end: an error, or the exit code and what was printed.
pub data Outcome : Type 0 where
  failed : (e : StartError) → Outcome
  exited : (code : ℕ) (lines : List (List ℕ)) → Outcome

-- `main` behind its start. `add` is the sum of an `Instant` and a number of seconds, which panics out
-- of range; `begin` and `last_print` are the readings of the clock before the loop.
unfoldable pub watch :
    (ℕ → ℕ) → (ℕ → ℕ → Exec ℕ) → Cli → ℕ → ℕ → List Turn → Option StartError → Exec Outcome
watch sqrt add cli begin last_print ts (some e) = ret (failed e)
watch sqrt add cli begin last_print ts none = do
  deadline ← add begin cli.seconds
  s ← serve sqrt cli deadline ts (record { meter = new; last_print = last_print; lines = [] })
  ret (exited (exit_code cli.limit_us s.meter) (s.lines ++ final_lines s.meter))

unfoldable pub program :
    (ℕ → ℕ) → (ℕ → ℕ → Exec ℕ) → Answers → Cli → ℕ → ℕ → List Turn → Exec Outcome
program sqrt add answers cli begin last_print ts =
    watch sqrt add cli begin last_print ts (start answers cli.ports)
