-- ===== src/Server/Tests.antt =====
-- The first three datagrams at the default interval.
use esp_clock_sync.Prelude.{ℕ, ◌-◌, ◌*◌, ◌^◌, ◌≡◌, List, [], ◌∷◌, none, map, arith, ret}
use esp_clock_sync.Packet.{parse}
use esp_clock_sync.Server.{Cli, broadcast}
use esp_clock_sync.Server.Timing.{Delay, IsOnTime, sends, sends-IsOnTime}
use esp_clock_sync.Server.Schedule.{schedule, broadcast-schedule}

abbrev defaults : Cli
defaults = record {
  interval_ms = 100;
  port = 51_234;
  broadcast_addr = 2 ^ 32 - 1;
  bind_iface = none;
}

broadcast-schedule_example :
    (out : List (List ℕ)) × (broadcast defaults 1_700_000_000_000_000_000 3 ≡ ret out)
    × (map parse out ≡ schedule 1_700_000_000_000_000_000 (100 * 1_000_000) 3 0)
broadcast-schedule_example =
    broadcast-schedule defaults 1_700_000_000_000_000_000 3 (omega arith) (omega arith)
      (omega arith)

abbrev delay : ℕ → ℕ → Delay
delay late rest = record { late = late; rest = rest }

-- The loop starts 50 µs behind the reading of `start`; its second sleep ends 2 ms late.
sends-IsOnTime_example :
    IsOnTime 100_000_000 1_000 50_000
      (delay 60_000 80_000 ∷ delay 2_000_000 90_000 ∷ [])
      (sends 100_000_000 1_000 51_000 (delay 60_000 80_000 ∷ delay 2_000_000 90_000 ∷ []))
sends-IsOnTime_example =
    sends-IsOnTime 100_000_000 50_000 1_000 51_000
      (delay 60_000 80_000 ∷ delay 2_000_000 90_000 ∷ []) (omega arith)
      (omega arith, (omega arith, tt))
