-- ===== src/Client/Handle.antt =====
-- crates/clock-sync-client/src/lib.rs, `ClockSyncClient`: the queries of the handle.
use esp_clock_sync.Prelude.{ℕ, ◌==◌, Option, none, some, if◌then◌else◌, and_then, Exec, ret, ◌>>=◌}
use esp_clock_sync.Prelude.Int.{pos, ◌+ℤ◌, ◌-ℤ◌}
use esp_clock_sync.Prelude.Words.{checked_i, shl, div_i}
use esp_clock_sync.Estimator
use esp_clock_sync.Estimator.{Quality, Estimator}
use esp_clock_sync.AlphaBeta.{predict}
use esp_clock_sync.Client.{Client, BeaconAnchor, extra_in_us}
use esp_clock_sync.Client.Conversions.{
  own_tsf_to_ap_tsf, instant_to_ap_tsf, ap_tsf_to_instant, shift_tsf, u64_of,
}

abbrev server_time : Client → Option ℕ → Option ℕ
server_time c none = none
server_time c (some ap_tsf_us) = Estimator.synced_ns_at c.udp_est ap_tsf_us

unfoldable pub synced_ns_at : Client → ℕ → Option ℕ
synced_ns_at c instant_us = server_time c (instant_to_ap_tsf c instant_us)

unfoldable pub synced_ns_at_own_tsf : Client → ℕ → Option ℕ
synced_ns_at_own_tsf c own_tsf = server_time c (own_tsf_to_ap_tsf c own_tsf)

-- The µs of the extra timer since the anchor, added to its access point time.
unfoldable pub extra_since_anchor : Client → BeaconAnchor → ℕ → ℕ → Exec (Option ℕ)
extra_since_anchor c a extra_us extra_per_us_q32 = do
  let delta_extra = pos extra_us -ℤ pos a.extra_us
  delta_us ← div_i 128 (shl 128 32 delta_extra) (pos extra_per_us_q32)
  ap ← checked_i 128 (pos a.ap_tsf_us +ℤ delta_us)
  ret (server_time c (u64_of ap))

unfoldable pub synced_ns_at_extra : Client → ℕ → ℕ → Exec (Option ℕ)
synced_ns_at_extra c extra_us extra_per_us_q32 = elim (c.latest_beacon) [
  | none ↦ ret none
  | some a ↦
      if extra_per_us_q32 == 0 then ret none else extra_since_anchor c a extra_us extra_per_us_q32
]

abbrev pub latest_beacon : Client → Option BeaconAnchor
latest_beacon c = c.latest_beacon

-- Stores the rate for the callback, and answers through the filter of the extra timer.
unfoldable pub synced_ns_at_extra_filtered : Client → ℕ → ℕ → Exec (Client × Option ℕ)
synced_ns_at_extra_filtered c extra_us extra_per_us_q32 = do
  let c' = record c { extra_per_us_q32 = extra_per_us_q32 }
  x ← extra_in_us extra_us extra_per_us_q32
  ret (
    c',
    elim (predict c'.extra_filter x) [
      | none ↦ none
      | some offset ↦ server_time c' (u64_of (x +ℤ offset))
    ],
  )

unfoldable pub own_tsf_at : Client → ℕ → Option ℕ
own_tsf_at c server_ns =
    and_then (Estimator.local_us_at c.udp_est server_ns)
      λ ap_tsf_us. and_then c.latest_beacon λ a. shift_tsf a.ap_tsf_us a.own_tsf_us ap_tsf_us

-- The argument is the reading of `Instant::now()`.
abbrev pub synced_ns_now : Client → ℕ → Option ℕ
synced_ns_now c now_us = synced_ns_at c now_us

unfoldable pub local_us_at : Client → ℕ → Option ℕ
local_us_at c server_ns =
    and_then (Estimator.local_us_at c.udp_est server_ns) λ ap_tsf_us. ap_tsf_to_instant c ap_tsf_us

abbrev pub quality : Client → Quality
quality c = Estimator.quality c.beacon_est

abbrev pub wall_quality : Client → Quality
wall_quality c = Estimator.quality c.udp_est

abbrev pub beacons_used : Client → ℕ
beacons_used c = c.beacons_used

abbrev pub beacons_seen : Client → ℕ
beacons_seen c = c.beacons_seen

abbrev pub frames_seen : Client → ℕ
frames_seen c = c.frames_seen

abbrev pub frames_matched : Client → ℕ
frames_matched c = c.frames_matched

abbrev pub samples_dropped : Client → ℕ
samples_dropped c = c.samples_dropped
