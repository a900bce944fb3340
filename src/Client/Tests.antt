-- ===== src/Client/Tests.antt =====
-- The client's theorems on a beacon, a sync packet and their events.
use esp_clock_sync.Prelude.{
  ℕ, ◌+◌, ◌-◌, ◌*◌, ◌%◌, ◌^◌, ◌≤◌, ◌<◌, ◌≡◌, refl, ◌⊎◌, inl, List, [], ◌∷◌, ◌++◌, none, some,
  length, arith, true, false, replicate, ret, ltb, if◌then◌else◌,
}
use esp_clock_sync.Prelude.Int.{pos, ◌+ℤ◌, ◌-ℤ◌}
use esp_clock_sync.Packet.{SyncPacket, magic, IsValid, to_bytes}
use esp_clock_sync.Packet.Bytes.{le_bytes}
use esp_clock_sync.Estimator.History.{Inv, new-Inv}
use esp_clock_sync.Estimator
use esp_clock_sync.Estimator.{window}
use esp_clock_sync.AlphaBeta.Ready.{IsReadyFor}
use esp_clock_sync.AlphaBeta.{AlphaBeta}
use esp_clock_sync.AlphaBeta
use esp_clock_sync.Client.{
  TrySend, IsTrySend, Client, Frame, BeaconAnchor, SnifferEvent, beacon, udp, new, own_tsf_us,
  rx_cb, fetch_add, channel_depth, anchor_of,
}
use esp_clock_sync.Client.Handle.{own_tsf_at, synced_ns_at_own_tsf}
use esp_clock_sync.Client.Tsf.{own_tsf_us-IsLatest}
use esp_clock_sync.Client.Anchor.{synced_ns_at_own_tsf-own_tsf_at}
use esp_clock_sync.Client.Beacon.{queued, offset_of}
use esp_clock_sync.Client.Receive.{IsDelta, delta_of, rx_cb_foreign, rx_cb_beacon, rx_cb_udp}
use esp_clock_sync.Client.Consume.{wall_samples, beacon_samples}
use esp_clock_sync.Client.Install.{Answers, answers_of}
use esp_clock_sync.Client.Backlog.{consume_rounds, all_samples, consume_rounds-Inv}
use esp_clock_sync.Client.Conversions.{own_tsf_to_ap_tsf, shift_tsf}
use esp_clock_sync.Prelude.Words.{wrap_i, signed}
use esp_clock_sync.Window.{keep_last}

-- A reading just after the low bits have wrapped.
own_tsf_us-IsLatest_example :
    (own_tsf_us (5 * 2 ^ 32 + 3) (2 ^ 32 - 7) % 2 ^ 32 ≡ 2 ^ 32 - 7)
    × (((own_tsf_us (5 * 2 ^ 32 + 3) (2 ^ 32 - 7) ≤ 5 * 2 ^ 32 + 3)
          × (5 * 2 ^ 32 + 3 < own_tsf_us (5 * 2 ^ 32 + 3) (2 ^ 32 - 7) + 2 ^ 32))
        ⊎ ((5 * 2 ^ 32 + 3 < 2 ^ 32 - 7)
            × (own_tsf_us (5 * 2 ^ 32 + 3) (2 ^ 32 - 7) ≡ 2 ^ 64 - 2 ^ 32 + (2 ^ 32 - 7))))
own_tsf_us-IsLatest_example =
    own_tsf_us-IsLatest (5 * 2 ^ 32 + 3) (2 ^ 32 - 7) (omega arith) (omega arith)

abbrev anchor : BeaconAnchor
anchor = record { instant_us = 900; own_tsf_us = 1_000; ap_tsf_us = 501_000; extra_us = 0 }

abbrev anchored : Client
anchored = record new {
  latest_beacon = some anchor;
  udp_est = record Estimator.new { n = 8; offset_ns = pos 7_000_000 };
}

synced_ns_at_own_tsf-own_tsf_at_example :
    (t p : ℕ) × (own_tsf_at anchored 1_007_000_500 ≡ some t)
    × (synced_ns_at_own_tsf anchored t ≡ some p)
    × (p ≤ 1_007_000_500)
    × (1_007_000_500 < p + 1_000)
synced_ns_at_own_tsf-own_tsf_at_example =
    synced_ns_at_own_tsf-own_tsf_at anchored anchor 7_000_000 1_007_000_500 refl (omega arith) refl
      (omega arith) (omega arith) (omega arith) (omega arith) (omega arith) (omega arith)
      (omega arith)

abbrev bssid : List ℕ
bssid = 2 ∷ 4 ∷ 6 ∷ 8 ∷ 10 ∷ 12 ∷ []

-- A beacon of that network, whose body has the time 0x0201.
abbrev beacon_bytes : List ℕ
beacon_bytes = 0x80 ∷ replicate 15 0 ++ (bssid ++ (0 ∷ 0 ∷ 1 ∷ 2 ∷ replicate 20 0))

abbrev beacon_frame : Frame
beacon_frame = record {
  moment = 0;
  data_bytes = beacon_bytes;
  timestamp = 4_990;
  instant_us_at_cb = 5_300;
  own_tsf_at_cb = 5_000;
}

-- A channel that does what is documented.
abbrev pub bounded : TrySend
bounded events event =
    if ltb (length events) channel_depth then some (events ++ event ∷ []) else none

pub bounded-IsTrySend : IsTrySend bounded
bounded-IsTrySend = record {
  with_room = λ events event h. ground arith;
  when_full = λ events event h. ground arith;
}

-- A hook that counts its calls.
abbrev counting : ℕ → ℕ → ℕ × ℕ
counting moment application = (moment + application, application + 1)

abbrev hooked : Client
hooked = record new { beacon_hook = some counting }

rx_cb_foreign_example :
    (rx_cb bounded hooked beacon_frame
      ≡ ret (record hooked {
        application = 1;
        frames_seen = fetch_add 0;
        beacons_seen = fetch_add 0;
        instant_minus_tsf = delta_of hooked beacon_frame;
      }))
    × IsDelta (delta_of hooked beacon_frame)
rx_cb_foreign_example =
    rx_cb_foreign bounded hooked beacon_frame (inl refl) (omega arith, omega arith) refl refl

abbrev locked : Client
locked = record new { locked_bssid = some bssid; beacon_hook = some counting }

instant-IsReadyFor : IsReadyFor 1 locked.instant_filter
instant-IsReadyFor = record {
  small = (omega arith, omega arith);
  rate = (omega arith, omega arith);
  alpha_pos = omega arith;
  beta_pos = omega arith;
}

extra-IsReadyFor : IsReadyFor 1 locked.extra_filter
extra-IsReadyFor = record {
  small = (omega arith, omega arith);
  rate = (omega arith, omega arith);
  alpha_pos = omega arith;
  beta_pos = omega arith;
}

rx_cb_beacon_example :
    (f g : AlphaBeta) × (rx_cb bounded locked beacon_frame
      ≡ ret (record locked {
        application = 1;
        frames_seen = fetch_add 0;
        instant_minus_tsf = delta_of locked beacon_frame;
        beacons_seen = fetch_add 0;
        beacons_used = fetch_add 0;
        latest_beacon = some (anchor_of locked beacon_frame);
        instant_filter = f;
        extra_filter = g;
        samples = queued [] (beacon (anchor_of locked beacon_frame));
      }))
    × (AlphaBeta.observe locked.instant_filter
          (signed 64 5_300)
          (offset_of (anchor_of locked beacon_frame))
        ≡ ret f)
    × IsReadyFor 0 f
    × IsReadyFor 0 g
    × ((anchor_of locked beacon_frame).own_tsf_us ≡ 4_990)
    × IsDelta (delta_of locked beacon_frame)
rx_cb_beacon_example =
    rx_cb_beacon bounded locked beacon_frame 4_990 0 bounded-IsTrySend (inl refl)
      (omega arith, omega arith) instant-IsReadyFor extra-IsReadyFor (omega arith) refl
      (omega arith) (omega arith) refl refl

abbrev pkt : SyncPacket
pkt = record { magic = magic; seq = 3; send_unix_ns = 1_700_000_000_300_000_000 }

pkt-IsValid : IsValid pkt
pkt-IsValid = record { has_magic = refl; seq_fits = omega arith; ns_fits = omega arith }

abbrev udp_frame : Frame
udp_frame = record {
  moment = 0;
  data_bytes = (8 ∷ 0 ∷ 67 ∷ []) ++ (to_bytes pkt ++ (1 ∷ 2 ∷ 3 ∷ []));
  timestamp = 4_990;
  instant_us_at_cb = 5_300;
  own_tsf_at_cb = 5_000;
}

rx_cb_udp_example :
    (rx_cb bounded locked udp_frame
      ≡ ret (record locked {
        application = 1;
        frames_seen = fetch_add 0;
        frames_matched = fetch_add 0;
        instant_minus_tsf = delta_of locked udp_frame;
        samples = queued [] (udp 1_700_000_000_300_000_000 4_990);
        samples_dropped = if ltb 0 channel_depth then 0 else fetch_add 0;
      }))
    × IsDelta (delta_of locked udp_frame)
unfolding to_bytes le_bytes
rx_cb_udp_example =
    rx_cb_udp bounded locked udp_frame (8 ∷ 0 ∷ 67 ∷ []) (1 ∷ 2 ∷ 3 ∷ []) pkt 4_990
      bounded-IsTrySend (inl refl) (omega arith, omega arith) refl (omega arith) (omega arith) refl
      pkt-IsValid (refl, (refl, (refl, tt))) refl

abbrev waiting : Client
waiting = record new {
  latest_beacon = some anchor;
  samples = beacon anchor ∷ udp 1_700_000_000_300_000_000 4_990 ∷ [];
}

abbrev later : List SnifferEvent
later = udp 1_700_000_000_300_000_000 4_990 ∷ []

consume_rounds-Inv_example :
    (c' : Client) × (consume_rounds 2 waiting ≡ ret c')
    × (c'.samples ≡ [])
    × Inv c'.beacon_est (keep_last window ([] ++ all_samples beacon_samples waiting.samples))
    × Inv c'.udp_est (keep_last window ([] ++ all_samples (wall_samples waiting) waiting.samples))
unfolding own_tsf_to_ap_tsf shift_tsf wrap_i ◌+ℤ◌ ◌-ℤ◌ keep_last
consume_rounds-Inv_example =
    consume_rounds-Inv waiting.samples waiting [] [] new-Inv new-Inv refl
      ((omega arith, omega arith), tt) ((omega arith, omega arith), tt)

abbrev one_spawned : Answers
one_spawned = answers_of true true false
