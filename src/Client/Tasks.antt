-- ===== src/Client/Tasks.antt =====
-- crates/clock-sync-client/src/lib.rs: one round of each of the two tasks.
use esp_clock_sync.Prelude.{
  ℕ, ◌*◌, List, [], ◌∷◌, Option, none, some, if◌then◌else◌, Exec, ret, ◌>>=◌,
}
use esp_clock_sync.Prelude.Words.{saturate_u}
use esp_clock_sync.Estimator.{Sample, observe}
use esp_clock_sync.Client.{Client, BeaconAnchor, SnifferEvent, beacon, udp, is_locked_on}
use esp_clock_sync.Client.Conversions.{own_tsf_to_ap_tsf}

-- The sample of a beacon: the access point's clock in ns at the board's TSF.
abbrev pub beacon_sample : BeaconAnchor → Sample
beacon_sample a = record {
  server_ns = saturate_u 128 (a.ap_tsf_us * 1_000);
  local_us = a.own_tsf_us;
}

abbrev pub observe_udp : Client → ℕ → Option ℕ → Exec Client
observe_udp c server_ns none = ret c
observe_udp c server_ns (some ap_tsf_us) = do
  est ← observe c.udp_est (record { server_ns = server_ns; local_us = ap_tsf_us })
  ret (record c { udp_est = est })

-- The arms of the match in `consume_samples`.
unfoldable pub consume : Client → SnifferEvent → Exec Client
consume c (beacon anchor) = do
  est ← observe c.beacon_est (beacon_sample anchor)
  ret (record c { beacon_est = est })
consume c (udp server_ns own_tsf) = observe_udp c server_ns (own_tsf_to_ap_tsf c own_tsf)

-- One round of `consume_samples`, given what is in the channel. The task waits while it is empty.
abbrev pub consume_next : Client → List SnifferEvent → Exec Client
consume_next c [] = ret c
consume_next c (event ∷ rest) = consume (record c { samples = rest }) event

unfoldable pub consume_samples : Client → Exec Client
consume_samples c = consume_next c c.samples

-- One round of `poll_ap_bssid`: the driver's answer, where it is ESP_OK, and the task's `prev`; then
-- the next `prev` and the wait in ms.
unfoldable pub poll_ap_bssid :
    Client → Option (List ℕ) → Option (List ℕ) → Client × Option (List ℕ) × ℕ
poll_ap_bssid c prev none = (c, prev, 500)
poll_ap_bssid c prev (some bssid) =
    if is_locked_on prev bssid
    then (c, prev, 10_000)
    else (record c { locked_bssid = some bssid }, some bssid, 10_000)
