-- ===== src/Client/Session.antt =====
-- Sync packets and beacons as a board hears them: the callback queues each, and the consumer takes it
-- before the next.
pub mod Run
use esp_clock_sync.Prelude.{
  ℕ, zero, suc, ◌*◌, ◌+◌, ◌%◌, ◌^◌, ◌≤◌, ◌<◌, ◌≡◌, true, false, List, [], ◌∷◌, ◌++◌, Option, none,
  some, Exec, ret, ◌>>=◌,
}
use esp_clock_sync.Packet.{SyncPacket, IsValid, to_bytes}
use esp_clock_sync.Packet.Find.{NoMagic}
use esp_clock_sync.AlphaBeta.Ready.{IsReadyFor}
use esp_clock_sync.Estimator.{Sample, window}
use esp_clock_sync.Window.{keep_last}
use esp_clock_sync.Estimator.Offsets.{InRange}
use esp_clock_sync.Estimator.History.{Inv}
use esp_clock_sync.Client.{
  TrySend, Client, Frame, BeaconAnchor, is_beacon, is_locked_on, bssid_of, ap_tsf_of, rx_cb,
}
use esp_clock_sync.Client.Conversions.{shift_tsf}
use esp_clock_sync.Client.Tasks.{consume_samples}
use esp_clock_sync.Client.Receive.{IsDelta, HasClocks}

-- The callback on a frame, then a round of the consumer.
unfoldable pub arrive : TrySend → Client → Frame → Exec Client
arrive try_send c p = rx_cb try_send c p >>= consume_samples

unfoldable pub arrive_all : TrySend → Client → List Frame → Exec Client
arrive_all try_send c [] = ret c
arrive_all try_send c (p ∷ ps) = arrive try_send c p >>= λ c'. arrive_all try_send c' ps

-- `received` is the latest board time up to the reading in the callback with the frame's low bits.
pub record IsStamped (p : Frame) (received : ℕ) : Type 0 where
  pub clocks : HasClocks p
  pub low_bits : p.timestamp ≡ received % 2 ^ 32
  pub before : received ≤ p.own_tsf_at_cb
  pub after : p.own_tsf_at_cb < received + 2 ^ 32

-- A frame with a packet in it, and when it was received: by the board's clock and, through the anchor
-- of that moment, by the access point's.
pub record Arrival : Type 0 where
  pub frame : Frame
  pub header : List ℕ
  pub packet : SyncPacket
  pub rest : List ℕ
  pub received : ℕ
  pub ap_tsf : ℕ

abbrev pub sample_of : Arrival → Sample
sample_of q = record { server_ns = q.packet.send_unix_ns; local_us = q.ap_tsf }

-- The frame carries the packet behind headers without the magic, and an anchor at which the board's
-- clock reads `own` and the access point's `ap_tsf` converts its time to that of the access point.
pub record IsArrival (own ap_tsf : ℕ) (q : Arrival) : Type 0 where
  pub stamped : IsStamped q.frame q.received
  pub no_beacon : is_beacon q.frame.data_bytes ≡ false
  pub valid : IsValid q.packet
  pub clear : NoMagic q.header (to_bytes q.packet ++ q.rest)
  pub carries : q.frame.data_bytes ≡ q.header ++ (to_bytes q.packet ++ q.rest)
  pub at_ap : shift_tsf own ap_tsf q.received ≡ some q.ap_tsf
  pub in_range : InRange (sample_of q)

-- What a board hears: a packet, or a beacon with its time by the board's clock.
pub data Heard : Type 0 where
  packet : (q : Arrival) → Heard
  beacon_at : (p : Frame) (received : ℕ) → Heard

abbrev pub frames : List Heard → List Frame
frames [] = []
frames (packet q ∷ hs) = q.frame ∷ frames hs
frames (beacon_at p received ∷ hs) = p ∷ frames hs

abbrev pub beacon_of : Frame → ℕ → Sample
beacon_of p received = record { server_ns = ap_tsf_of p.data_bytes * 1_000; local_us = received }

-- A beacon of the network on which the board is locked.
pub record IsBeacon (bssid : List ℕ) (p : Frame) (received : ℕ) : Type 0 where
  pub stamped : IsStamped p received
  pub beacon : is_beacon p.data_bytes ≡ true
  pub locked : is_locked_on (some bssid) (bssid_of p.data_bytes) ≡ true
  pub in_range : InRange (beacon_of p received)

-- Each packet is heard under the anchor of the beacon before it, the first ones under that of `own`
-- and `ap_tsf`.
abbrev pub IsHeard : List ℕ → ℕ → ℕ → List Heard → Type 0
IsHeard bssid own ap_tsf [] = Unit
IsHeard bssid own ap_tsf (packet q ∷ hs) = IsArrival own ap_tsf q × IsHeard bssid own ap_tsf hs
IsHeard bssid own ap_tsf (beacon_at p received ∷ hs) =
    IsBeacon bssid p received × IsHeard bssid received (ap_tsf_of p.data_bytes) hs

-- The anchor behind all of them: the board's clock and the access point's.
abbrev pub last_anchor : ℕ → ℕ → List Heard → ℕ × ℕ
last_anchor own ap_tsf [] = (own, ap_tsf)
last_anchor own ap_tsf (packet q ∷ hs) = last_anchor own ap_tsf hs
last_anchor own ap_tsf (beacon_at p received ∷ hs) =
    last_anchor received (ap_tsf_of p.data_bytes) hs

abbrev pub n_beacons : List Heard → ℕ
n_beacons [] = zero
n_beacons (packet q ∷ hs) = n_beacons hs
n_beacons (beacon_at p received ∷ hs) = suc (n_beacons hs)

-- The samples that they leave in the two estimators.
abbrev pub walls : List Heard → List Sample
walls [] = []
walls (packet q ∷ hs) = sample_of q ∷ walls hs
walls (beacon_at p received ∷ hs) = walls hs

abbrev pub beacons : List Heard → List Sample
beacons [] = []
beacons (packet q ∷ hs) = beacons hs
beacons (beacon_at p received ∷ hs) = beacon_of p received ∷ beacons hs

-- The hook returns 64 bits.
abbrev pub IsHook : Option (ℕ → ℕ → ℕ × ℕ) → Type 0
IsHook none = Unit
IsHook (some f) = (moment application : ℕ) → (f moment application).0 < 2 ^ 64

-- The latest beacon, up to its `Instant` and hook.
abbrev pub IsAnchor : ℕ → ℕ → Option BeaconAnchor → Type 0
IsAnchor own ap_tsf none = ⊥
IsAnchor own ap_tsf (some a) = (a.own_tsf_us ≡ own) × (a.ap_tsf_us ≡ ap_tsf)

-- Between two frames: nothing waits, both estimators are fitted to their windows, and the filters are
-- ready for `k` beacons more.
pub record IsIdle (bssid : List ℕ) (k : ℕ) (c : Client) (own ap_tsf : ℕ) (bs us : List Sample)
    : Type 0 where
  pub difference : IsDelta c.instant_minus_tsf
  pub network : c.locked_bssid ≡ some bssid
  pub hook : IsHook c.beacon_hook
  pub instant_filter : IsReadyFor k c.instant_filter
  pub extra_filter : IsReadyFor k c.extra_filter
  pub anchor : IsAnchor own ap_tsf c.latest_beacon
  pub samples : c.samples ≡ []
  pub beacon_window : Inv c.beacon_est (keep_last window bs)
  pub wall_window : Inv c.udp_est (keep_last window us)
