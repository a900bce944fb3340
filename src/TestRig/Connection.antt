-- ===== src/TestRig/Connection.antt =====
-- crates/clock-sync-test/src/main.rs, `connection`: that of the firmware, with the access point that
-- `main` names.
use esp_clock_sync.Prelude.{ℕ, List, Option, Exec}
use esp_clock_sync.Text.{codes}
use esp_clock_sync.Firmware.Connection.{Answers, Call, connection_round}
use esp_clock_sync.TestRig.{parse_bssid}

abbrev pub bssid : Option (List ℕ)
bssid = parse_bssid (codes "34:20:E3:63:66:B3")

abbrev pub connection : Option (List ℕ) → Answers → Exec (List Call)
connection bssid a = connection_round bssid a
