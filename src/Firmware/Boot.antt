-- ===== src/Firmware/Boot.antt =====
-- crates/clock-sync-firmware/src/main.rs, `main`: the three lines of the prompt, and what a round
-- reports with the address that they give.
use esp_clock_sync.Prelude.{ℕ, List, Option, some, if◌then◌else◌, and_then}
use esp_clock_sync.Client.{Client}
use esp_clock_sync.TestRig.{Mac}
use esp_clock_sync.Firmware.{Reading, read_line, heartbeat, sync_only_line}
use esp_clock_sync.Firmware.Address.{server_ip, is_unspecified}

-- The variables of `main` that the prompt sets, and the readings behind it.
pub record Prompted : Type 0 where
  pub ssid : List ℕ
  pub password : List ℕ
  pub server : List ℕ
  pub rest : List Reading

-- The prompt, or none where it still waits after all readings.
unfoldable pub prompt : List Reading → Option Prompted
prompt rs = and_then (read_line rs) λ first. and_then (read_line first.1) λ second.
    and_then (read_line second.1) λ third.
      some
        (record { ssid = first.0; password = second.0; server = server_ip third.0; rest = third.1 })

-- A round of one of the loops at the end of `main`, given the `Instant` clock.
unfoldable pub report : Client → Mac → List ℕ → ℕ → List ℕ
report c m server now_us = if is_unspecified server then sync_only_line c else heartbeat c m now_us
