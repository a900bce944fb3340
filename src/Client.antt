-- ===== src/Client.antt =====
-- crates/clock-sync-client/src/lib.rs: the statics of the client as one record, its receive callback
-- and its two tasks. A critical section is one step, and so is the whole callback.
pub mod Install
pub mod Conversions
pub mod Tasks
pub mod Handle
pub mod Tsf
pub mod Anchor
pub mod Delta
pub mod Beacon
pub mod Receive
pub mod Consume
pub mod Backlog
pub mod Session
pub mod Agreement
mod Tests
use esp_clock_sync.Prelude.{
  ℕ, ◌≡◌, ◌<◌, ◌≤◌, ◌+◌, ◌-◌, ◌*◌, ◌/◌, ◌%◌, ◌^◌, Bool, true, false, ◌&&◌, List, [], ◌∷◌, ◌++◌,
  Option, none, some, ltb, leb, ◌==◌, if◌then◌else◌, length, Exec, ret, ◌>>=◌,
}
use esp_clock_sync.Prelude.Int.{ℤ, pos, negsuc, ◌+ℤ◌, ◌-ℤ◌, quot, eqb_ℤ}
use esp_clock_sync.Prelude.Words.{checked_i, wrap_i, wrap_u, signed, shl, div_i}
use esp_clock_sync.Packet.{SyncPacket, find_in_frame, slice, bytes_eq}
use esp_clock_sync.Packet.Bytes.{of_le_bytes}
use esp_clock_sync.Estimator.{Estimator, Sample}
use esp_clock_sync.AlphaBeta.{AlphaBeta}
use esp_clock_sync.AlphaBeta
use esp_clock_sync.Estimator

-- "The delta between Instant and TSF has not been measured yet": i64::MIN.
abbrev pub delta_unset : ℤ
delta_unset = negsuc (2 ^ 63 - 1)

abbrev pub channel_depth : ℕ
channel_depth = 32

pub record BeaconAnchor : Type 0 where
  pub instant_us : ℕ
  pub own_tsf_us : ℕ
  pub ap_tsf_us : ℕ
  pub extra_us : ℕ

pub data SnifferEvent : Type 0 where
  beacon : BeaconAnchor → SnifferEvent
  udp : (server_ns own_tsf_us : ℕ) → SnifferEvent

-- The statics. A hook is a function pointer of the application: what it returns depends on the moment
-- of the call and on the application's own statics, which it may change. These stand as one number,
-- such as the packed count of a software capture.
pub record Client : Type 0 where
  pub samples : List SnifferEvent
  pub beacon_est : Estimator
  pub udp_est : Estimator
  pub latest_beacon : Option BeaconAnchor
  pub beacon_hook : Option (ℕ → ℕ → ℕ × ℕ)
  pub application : ℕ
  pub frames_seen : ℕ
  pub frames_matched : ℕ
  pub beacons_seen : ℕ
  pub beacons_used : ℕ
  pub locked_bssid : Option (List ℕ)
  pub samples_dropped : ℕ
  pub instant_minus_tsf : ℤ
  pub instant_filter : AlphaBeta
  pub extra_filter : AlphaBeta
  pub extra_per_us_q32 : ℕ

abbrev pub new : Client
new = record {
  samples = [];
  beacon_est = Estimator.new;
  udp_est = Estimator.new;
  latest_beacon = none;
  beacon_hook = none;
  application = 0;
  frames_seen = 0;
  frames_matched = 0;
  beacons_seen = 0;
  beacons_used = 0;
  locked_bssid = none;
  samples_dropped = 0;
  instant_minus_tsf = delta_unset;
  instant_filter = AlphaBeta.new 16 2_048;
  extra_filter = AlphaBeta.new 512 2_048;
  extra_per_us_q32 = 0;
}

-- What one callback is given by the radio and reads from the clocks.
pub record Frame : Type 0 where
  pub moment : ℕ
  pub data_bytes : List ℕ
  pub timestamp : ℕ
  pub instant_us_at_cb : ℕ
  pub own_tsf_at_cb : ℕ

abbrev pub set_beacon_hook : Client → (ℕ → ℕ → ℕ × ℕ) → Client
set_beacon_hook c hook = record c { beacon_hook = some hook }

-- What the hook returns, and the application's statics after the call.
abbrev pub invoke_beacon_hook : Client → ℕ → ℕ × ℕ
invoke_beacon_hook c moment = elim (c.beacon_hook) [
  | none ↦ (0, c.application)
  | some f ↦ f moment c.application
]

-- `fetch_add(1)` on an `AtomicU64`, which wraps.
abbrev pub fetch_add : ℕ → ℕ
fetch_add n = (n + 1) % 2 ^ 64

-- `try_send` of the channel, which is code of embassy_sync: from the events that wait and one more to
-- those that wait afterwards, or none where it is an error.
abbrev pub TrySend : Type 0
TrySend = List SnifferEvent → SnifferEvent → Option (List SnifferEvent)

-- What its documentation says: the event waits behind the others, or, where as many wait as the
-- channel holds, it is not taken.
pub record IsTrySend (try_send : TrySend) : Type 0 where
  pub with_room :
      (events : List SnifferEvent) (event : SnifferEvent)
      → length events < channel_depth
      → try_send events event ≡ some (events ++ event ∷ [])
  pub when_full :
      (events : List SnifferEvent) (event : SnifferEvent)
      → channel_depth ≤ length events
      → try_send events event ≡ none

-- The client after a `try_send` whose error is ignored, and after one whose error is counted.
abbrev pub ignore_error : Client → Option (List SnifferEvent) → Client
ignore_error c none = c
ignore_error c (some events) = record c { samples = events }

abbrev pub count_error : Client → Option (List SnifferEvent) → Client
count_error c none = record c { samples_dropped = fetch_add c.samples_dropped }
count_error c (some events) = record c { samples = events }

-- The hardware's 32 low bits under the high bits of the reading in the callback. The low bits of
-- the other operand of `|` are zero, so it is a sum.
unfoldable pub own_tsf_us : ℕ → ℕ → ℕ
own_tsf_us own_tsf_at_cb tsf_raw_low =
    let high = own_tsf_at_cb / 2 ^ 32 * 2 ^ 32 in
    if leb tsf_raw_low (own_tsf_at_cb % 2 ^ 32)
    then high + tsf_raw_low
    else (high + 2 ^ 64 - 2 ^ 32) % 2 ^ 64 + tsf_raw_low

-- `prev + (new_delta - prev) / 64`
unfoldable pub smooth : ℤ → ℤ → Exec ℤ
smooth prev new_delta = do
  difference ← checked_i 64 (new_delta -ℤ prev)
  step ← div_i 64 difference (pos 64)
  checked_i 64 (prev +ℤ step)

unfoldable pub update_delta : ℤ → ℕ → ℕ → Exec ℤ
update_delta prev instant_us own_tsf =
    let new_delta = wrap_i 64 (signed 64 instant_us -ℤ signed 64 own_tsf) in
    if eqb_ℤ prev delta_unset then ret new_delta else smooth prev new_delta

-- `packet.data.len() >= 36 && packet.data[0] == 0x80`
abbrev pub is_beacon : List ℕ → Bool
is_beacon [] = false
is_beacon (b ∷ bs) = leb 36 (length (b ∷ bs)) && (b == 0x80)

abbrev pub bssid_of : List ℕ → List ℕ
bssid_of bytes = slice bytes 16 22

abbrev pub ap_tsf_of : List ℕ → ℕ
ap_tsf_of bytes = of_le_bytes (slice bytes 24 32)

abbrev pub is_locked_on : Option (List ℕ) → List ℕ → Bool
is_locked_on none bssid = false
is_locked_on (some b) bssid = bytes_eq b bssid

-- `(((extra_us as i128) << 32) / extra_q32 as i128) as i64`
unfoldable pub extra_in_us : ℕ → ℕ → Exec ℤ
extra_in_us extra_us extra_q32 = do
  q ← div_i 128 (shl 128 32 (pos extra_us)) (pos extra_q32)
  ret (wrap_i 64 q)

unfoldable pub observe_extra : Client → BeaconAnchor → Exec Client
observe_extra c a = do
  x ← extra_in_us a.extra_us c.extra_per_us_q32
  f ← AlphaBeta.observe c.extra_filter x (wrap_i 64 (signed 64 a.ap_tsf_us -ℤ x))
  ret (record c { extra_filter = f })

unfoldable pub feed_extra : Client → BeaconAnchor → Exec Client
feed_extra c a = if c.extra_per_us_q32 == 0 then ret c else observe_extra c a

-- What a beacon of the locked access point does, from `BEACONS_USED` on.
unfoldable pub use_beacon : TrySend → Client → BeaconAnchor → Exec Client
use_beacon try_send c a = do
  let observed_offset = wrap_i 64 (signed 64 a.ap_tsf_us -ℤ signed 64 a.instant_us)
  f ← AlphaBeta.observe c.instant_filter (signed 64 a.instant_us) observed_offset
  c' ←
      feed_extra
        (record c {
          beacons_used = fetch_add c.beacons_used;
          latest_beacon = some a;
          instant_filter = f;
        })
        a
  ret (ignore_error c' (try_send c'.samples (beacon a)))

unfoldable pub beacon_path : TrySend → Client → BeaconAnchor → List ℕ → Exec Client
beacon_path try_send c a bytes =
    let seen = record c { beacons_seen = fetch_add c.beacons_seen } in
    if is_locked_on c.locked_bssid (bssid_of bytes) then use_beacon try_send seen a else ret seen

unfoldable pub queue_udp : TrySend → Client → ℕ → Option SyncPacket → Client
queue_udp try_send c own_tsf none = c
queue_udp try_send c own_tsf (some pkt) =
    let c' = record c { frames_matched = fetch_add c.frames_matched } in
    count_error c' (try_send c'.samples (udp pkt.send_unix_ns own_tsf))

-- What `rx_cb` records where the frame is a beacon. It has called the hook, as on any frame.
abbrev pub anchor_of : Client → Frame → BeaconAnchor
anchor_of c p = record {
  instant_us = p.instant_us_at_cb;
  own_tsf_us = own_tsf_us p.own_tsf_at_cb p.timestamp;
  ap_tsf_us = ap_tsf_of p.data_bytes;
  extra_us = (invoke_beacon_hook c p.moment).0;
}

unfoldable pub udp_path : TrySend → Client → ℕ → List ℕ → Exec Client
udp_path try_send c own_tsf bytes = do
  found ← find_in_frame bytes
  ret (queue_udp try_send c own_tsf found)

unfoldable pub rx_cb : TrySend → Client → Frame → Exec Client
rx_cb try_send c p = do
  let called = record c { application = (invoke_beacon_hook c p.moment).1 }
  delta ← update_delta c.instant_minus_tsf p.instant_us_at_cb p.own_tsf_at_cb
  let c' = record called { frames_seen = fetch_add c.frames_seen; instant_minus_tsf = delta }
  if is_beacon p.data_bytes
      then beacon_path try_send c' (anchor_of c p) p.data_bytes
      else udp_path try_send c' (own_tsf_us p.own_tsf_at_cb p.timestamp) p.data_bytes
