-- ===== src/TestRig/Tests.antt =====
-- The test rig's theorems on a time, on the lines of two boards and on a BSSID.
use esp_clock_sync.Prelude.{
  ℕ, ◌+◌, ◌*◌, ◌^◌, ◌%◌, ◌≤◌, ◌<◌, ◌≡◌, ◌⊎◌, ◌↔◌, refl, true, List, [], ◌∷◌, map, length, none,
  some, arith, ret,
}
use esp_clock_sync.Text.{codes, is_whitespace, strip_prefix}
use esp_clock_sync.SkewMeter.{tx, rx, Cli}
use esp_clock_sync.SkewMeter.Parse.{parse_line}
use esp_clock_sync.TestRig.{pulse_period_ns, next_tick, Mac, mac_text, pulse_tx_line}
use esp_clock_sync.TestRig.Tick.{next_tick_first}
use esp_clock_sync.SkewMeter.Trace.{IsClean}
use esp_clock_sync.SkewMeter.Reader.{Answers, reader, spawn_reader, spawn_readers, start}
use esp_clock_sync.SkewMeter.Loop.{Received, event, timeout, disconnected, Turn, exited, program}
use esp_clock_sync.SkewMeter.Program.{heard}
use esp_clock_sync.TestRig.Pipeline.{
  Output, sent, received, other, unread, read, edges, IsPrinted, reader-edges,
}
use esp_clock_sync.TestRig.Verdict.{Interleaved, done, first, second, boards_verdict}
use esp_clock_sync.TestRig.Lines.{IsMac, parse_line-pulse_tx_line}

-- 1 ms before a multiple of the period.
next_tick_first_example :
    (tick : ℕ) × (next_tick 199_000_000 ≡ ret tick)
    × (tick % pulse_period_ns ≡ 0)
    × (204_000_000 ≤ tick)
    × (tick < 204_000_000 + pulse_period_ns)
next_tick_first_example = next_tick_first 199_000_000 (omega arith)

abbrev board : Mac
board = record { b0 = 0x2a; b1 = 0xf4; b2 = 0x07 }

board-IsMac : IsMac board
board-IsMac = record { b0 = omega arith; b1 = omega arith; b2 = omega arith }

parse_line-pulse_tx_line_example :
    parse_line 1 (pulse_tx_line board 12 400_000_123 400_000_000 77)
    ≡ some (tx 1 (mac_text board) 12 400_000_123)
parse_line-pulse_tx_line_example =
    parse_line-pulse_tx_line 1 board 12 400_000_123 400_000_000 77 board-IsMac (omega arith)
      (omega arith)

-- The board 0 sends an edge at 400 ms, and the board 1 receives it 30 µs later by its clock, after an
-- error of its port and a line of the boot.
abbrev sender : List Output
sender = sent 3 400_000_000 400_000_000 77 ∷ []

abbrev receiver : List Output
receiver = unread ∷ other (codes "boot") ∷ received (codes "D5") (some 400_030_000) 78 ∷ []

abbrev options : Cli
options = record {
  ports = codes "ttyUSB0" ∷ codes "ttyUSB1" ∷ [];
  baud = 921_600;
  limit_us = 25;
  seconds = 60;
  match_window_ms = 50;
}

abbrev hear : ℕ → Received → Turn
hear now r = record { now = now; received = r; asked = now; printed = now }

abbrev turns : List Turn
turns =
    hear 10 (event (tx 0 (mac_text board) 3 400_000_000))
    ∷ hear 20 timeout
    ∷ hear 30 (event (rx 1 (mac_text board) 400_030_000))
    ∷ hear 90_000_000_000 disconnected
    ∷ []

abbrev works : Answers
works = record { opens = λ path. true; spawns = λ device. true }

sender-reader : reader 0 (map (read board) sender) ≡ tx 0 (mac_text board) 3 400_000_000 ∷ []
unfolding edges
sender-reader =
    reader-edges 0 0 board sender board-IsMac (omega arith, omega arith, omega arith, tt)

receiver-IsPrinted : IsPrinted 0 receiver
unfolding strip_prefix is_whitespace
receiver-IsPrinted = (refl, refl, ((refl, (refl, tt)), (omega arith, tt), tt))

receiver-reader : reader 1 (map (read board) receiver) ≡ rx 1 (mac_text board) 400_030_000 ∷ []
unfolding edges
receiver-reader = reader-edges 1 0 board receiver board-IsMac receiver-IsPrinted

mixed :
    Interleaved
      (reader 0 (map (read board) sender))
      (reader 1 (map (read board) receiver))
      (heard 60_000_000_005 turns)
unfolding heard
mixed = rw (sender-reader, receiver-reader) (first _ (second _ done))

few : length (heard 60_000_000_005 turns) ≤ 2 ^ 20
unfolding heard
few = omega arith

opened : start works (codes "ttyUSB0" ∷ codes "ttyUSB1" ∷ []) ≡ none
unfolding start spawn_readers spawn_reader
opened = refl

boards_verdict_example :
    Interleaved (edges 0 board sender) (edges 1 board receiver) (heard 60_000_000_005 turns)
    × ((code : ℕ) × (lines : List (List ℕ)) × (program
            (λ n. n)
            (λ begin seconds. ret (begin + seconds * 1_000_000_000))
            works
            options
            5
            5
            turns
          ≡ ret (exited code lines))
        × ((code ≡ 0) ⊎ (code ≡ 2))
        × ((code ≡ 0) ↔ IsClean (50 * 1_000_000) 25 [] [] (heard 60_000_000_005 turns)))
boards_verdict_example =
    boards_verdict (λ n. n) (λ begin seconds. ret (begin + seconds * 1_000_000_000)) works options 5
      5 60_000_000_005 turns board board sender receiver opened refl (omega arith) board-IsMac
      board-IsMac (omega arith, omega arith, omega arith, tt) receiver-IsPrinted mixed few
