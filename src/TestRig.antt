-- ===== src/TestRig.antt =====
-- crates/clock-sync-test/src/main.rs: the schedule of the pulses, the lines that the board prints
-- for them, and the parsing of a BSSID. Pins, waits and the console are outside: a round of the
-- pulser is given what it reads from the clocks and the capture timer, and its line is its result.
pub mod Tick
pub mod Lines
pub mod Received
pub mod Pipeline
pub mod Verdict
pub mod Bssid
pub mod Connection
mod Tests
use esp_clock_sync.Prelude.{
  ℕ, ◌+◌, ◌-◌, ◌*◌, ◌/◌, ◌%◌, ◌^◌, List, [], ◌∷◌, ◌++◌, Option, none, some, ltb, ◌==◌,
  if◌then◌else◌, length, and_then, unwrap_or, Exec, ret, ◌>>=◌,
}
use esp_clock_sync.Prelude.Words.{checked_u}
use esp_clock_sync.Text.{codes, decimal, decimal_signed, hex_byte, split, from_str_radix}
use esp_clock_sync.Client.{Client}
use esp_clock_sync.Capture.{Capture, poll_ch0, poll_ch1}
use esp_clock_sync.Client.Handle.{
  synced_ns_now, local_us_at, synced_ns_at_extra_filtered, quality, frames_seen, frames_matched,
  samples_dropped,
}

abbrev pub pulse_period_ns : ℕ
pulse_period_ns = 100_000_000

abbrev pub cap_ticks_per_us_q32 : ℕ
cap_ticks_per_us_q32 = 80 * 2 ^ 32

-- The next tick of the schedule, with 5 ms of slack.
unfoldable pub next_tick : ℕ → Exec ℕ
next_tick now_ns = do
  tick ← checked_u 128 ((now_ns / pulse_period_ns + 1) * pulse_period_ns)
  let later = checked_u 128 (tick + pulse_period_ns)
  if ltb (tick - now_ns) 5_000_000 then later else ret tick

-- The three low bytes of the MAC address.
pub record Mac : Type 0 where
  pub b0 : ℕ
  pub b1 : ℕ
  pub b2 : ℕ

-- `{:02x}:{:02x}:{:02x}`
abbrev pub mac_text : Mac → List ℕ
mac_text m = hex_byte m.b0 ++ (b':' ∷ hex_byte m.b1 ++ (b':' ∷ hex_byte m.b2))

abbrev pub pulse_tx_line : Mac → ℕ → ℕ → ℕ → ℕ → List ℕ
pulse_tx_line m seq synced_ns target_ns cap_us =
    codes "pulse_tx mac="
    ++ (mac_text m
        ++ (codes " seq="
            ++ (decimal seq
                ++ (codes " synced_ns="
                    ++ (decimal synced_ns
                        ++ (codes " target_ns="
                            ++ (decimal target_ns ++ (codes " cap_us=" ++ decimal cap_us))))))))

abbrev pub synced_text : Option ℕ → List ℕ
synced_text none = codes "NONE"
synced_text (some ns) = decimal ns

abbrev pub pulse_rx_line : List ℕ → Mac → Option ℕ → ℕ → List ℕ
pulse_rx_line port m synced_ns cap_us =
    codes "pulse_rx port="
    ++ (port
        ++ (codes " mac="
            ++ (mac_text m
                ++ (codes " synced_ns="
                    ++ (synced_text synced_ns ++ (codes " cap_us=" ++ decimal cap_us))))))

-- What a round of the pulser does: how long it sleeps before it spins up to the edge, the line, and
-- the next number; or a wait of 100 ms.
pub data Round : Type 0 where
  not_synced : Round
  pulse : (coarse_wait_us : ℕ) (line : List ℕ) (seq : ℕ) → Round

-- `if target > now { (target - now).saturating_sub(80) }`
abbrev pub coarse_wait : ℕ → ℕ → ℕ
coarse_wait target_us now_us = target_us - now_us - 80

unfoldable pub pulse_at : Client → Mac → ℕ → ℕ → ℕ → ℕ → Option ℕ → Exec (Client × Round)
pulse_at c m seq now_us edge_cap tick none = ret (c, not_synced)
pulse_at c m seq now_us edge_cap tick (some target_us) = do
  (c', synced) ← synced_ns_at_extra_filtered c edge_cap cap_ticks_per_us_q32
  ret (
    c',
    pulse (coarse_wait target_us now_us) (pulse_tx_line m seq (unwrap_or synced tick) tick edge_cap)
        ((seq + 1) % 2 ^ 32),
  )

unfoldable pub pulse_from : Client → Mac → ℕ → ℕ → ℕ → Option ℕ → Exec (Client × Round)
pulse_from c m seq now_us edge_cap none = ret (c, not_synced)
pulse_from c m seq now_us edge_cap (some now_ns) = do
  tick ← next_tick now_ns
  pulse_at c m seq now_us edge_cap tick (local_us_at c tick)

-- One round of the loop of `pulser`: the `Instant` clock at its start and before the wait, and the
-- capture at the edge.
unfoldable pub pulser : Client → Mac → ℕ → ℕ → ℕ → ℕ → Exec (Client × Round)
pulser c m seq start_us now_us edge_cap =
    pulse_from c m seq now_us edge_cap (synced_ns_now c start_us)

-- An edge that `reporter` has polled.
unfoldable pub log_event : Client → List ℕ → Mac → ℕ → Exec (Client × List ℕ)
log_event c port m cap_us = do
  (c', synced) ← synced_ns_at_extra_filtered c cap_us cap_ticks_per_us_q32
  ret (c', pulse_rx_line port m synced cap_us)

-- The line of a poll, where it found an edge.
unfoldable pub report : Client → List ℕ → Mac → Option ℕ → Exec (Client × List (List ℕ))
report c port m none = ret (c, [])
report c port m (some cap_us) = do (c', line) ← log_event c port m cap_us; ret (c', line ∷ [])

-- One round of the loop of `reporter`, given the clock and the register at each poll: the lines that
-- it prints. With none it waits for 2 ms.
unfoldable pub reporter :
    Client → Capture → Mac → ℕ → ℕ → ℕ → ℕ → Exec (Client × Capture × List (List ℕ))
reporter c t m now0 raw0 now1 raw1 = do
  (t0, edge0) ← poll_ch0 t now0 raw0
  (c0, lines0) ← report c (codes "D5") m edge0
  (t1, edge1) ← poll_ch1 t0 now1 raw1
  (c1, lines1) ← report c0 (codes "D34") m edge1
  ret (c1, t1, lines0 ++ lines1)

-- The loop over the parts, which ends the function at the first that is no byte.
unfoldable pub parse_bytes : List (List ℕ) → Option (List ℕ)
parse_bytes [] = some []
parse_bytes (p ∷ ps) =
    and_then (from_str_radix 16 8 p) λ b. and_then (parse_bytes ps) λ bs. some (b ∷ bs)

unfoldable pub parse_bssid : List ℕ → Option (List ℕ)
parse_bssid s = let parts = split b':' s in if length parts == 6 then parse_bytes parts else none

-- The line of statistics in the idle loop of `main`.
unfoldable pub stats_line : Client → List ℕ
stats_line c =
    codes "stats: samples="
    ++ (decimal (quality c).n_samples
        ++ (codes " drift_ppb="
            ++ (decimal_signed (quality c).drift_ppb
                ++ (codes " p95_us="
                    ++ (decimal (quality c).residual_us_p95
                        ++ (codes " seen="
                            ++ (decimal (frames_seen c)
                                ++ (codes " matched="
                                    ++ (decimal (frames_matched c)
                                        ++ (codes " dropped="
                                            ++ decimal (samples_dropped c)))))))))))
