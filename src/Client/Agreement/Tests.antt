-- ===== src/Client/Agreement/Tests.antt =====
-- Two boards on the same packet, eight times, with clocks that differ by 2 ms and a bit. One of them
-- hears a beacon in between, from which on its anchor is 1 µs ahead.
use esp_clock_sync.Prelude.{
  ℕ, ◌+◌, ◌*◌, ◌^◌, ◌≤◌, ◌<◌, ◌≡◌, refl, inl, List, [], ◌∷◌, ◌++◌, some, arith, replicate, ret,
}
use esp_clock_sync.Prelude.Int.{◌+ℤ◌, ◌-ℤ◌}
use esp_clock_sync.Prelude.Words.{wrap_i}
use esp_clock_sync.Packet.{SyncPacket, magic, to_bytes}
use esp_clock_sync.Packet.Bytes.{le_bytes, of_le_bytes}
use esp_clock_sync.AlphaBeta
use esp_clock_sync.AlphaBeta.Ready.{IsReadyFor}
use esp_clock_sync.Window.{keep_last}
use esp_clock_sync.Estimator.History.{new-Inv}
use esp_clock_sync.Client.{Client, Frame, new}
use esp_clock_sync.Client.Conversions.{shift_tsf}
use esp_clock_sync.Client.Handle.{synced_ns_at_own_tsf}
use esp_clock_sync.Client.Tests.{bounded, bounded-IsTrySend}
use esp_clock_sync.Client.Session.{
  Arrival, IsArrival, Heard, packet, beacon_at, IsBeacon, IsIdle, arrive_all, frames,
}
use esp_clock_sync.Client.Agreement.{Board, IsSynced, boards_agree}

abbrev pkt : SyncPacket
pkt = record { magic = magic; seq = 3; send_unix_ns = 1_700_000_000_300_000_000 }

-- A frame that is received at `at` and whose callback runs 10 µs later.
abbrev frame : List ℕ → ℕ → Frame
frame bytes at = record {
  moment = 0;
  data_bytes = bytes;
  timestamp = at;
  instant_us_at_cb = 300 + at;
  own_tsf_at_cb = 10 + at;
}

-- The packet, received when the access point's clock was at `ap_tsf`.
abbrev arrival : ℕ → ℕ → Arrival
arrival at ap_tsf = record {
  frame = frame ((8 ∷ 0 ∷ 67 ∷ []) ++ (to_bytes pkt ++ (1 ∷ 2 ∷ 3 ∷ []))) at;
  header = 8 ∷ 0 ∷ 67 ∷ [];
  packet = pkt;
  rest = 1 ∷ 2 ∷ 3 ∷ [];
  received = at;
  ap_tsf = ap_tsf;
}

arrival-IsArrival :
    (own ap at ap_tsf : ℕ)
    → at < 2 ^ 20
    → shift_tsf own ap at ≡ some ap_tsf
    → ap_tsf < 2 ^ 62
    → IsArrival own ap (arrival at ap_tsf)
unfolding to_bytes le_bytes
arrival-IsArrival own ap at ap_tsf early at_ap small = record {
  stamped = record {
    clocks = (omega arith, omega arith);
    low_bits = omega arith;
    before = omega arith;
    after = omega arith;
  };
  no_beacon = refl;
  valid = record { has_magic = refl; seq_fits = omega arith; ns_fits = omega arith };
  clear = (refl, (refl, (refl, tt)));
  carries = refl;
  at_ap = at_ap;
  in_range = (omega arith, small);
}

abbrev bssid : List ℕ
bssid = 2 ∷ 4 ∷ 6 ∷ 8 ∷ 10 ∷ 12 ∷ []

-- A beacon of that network, whose body has the time 506001.
abbrev beacon_bytes : List ℕ
beacon_bytes = 0x80 ∷ replicate 15 0 ++ (bssid ++ (0 ∷ 0 ∷ 0x91 ∷ 0xb8 ∷ 0x07 ∷ replicate 20 0))

frame-IsBeacon : IsBeacon bssid (frame beacon_bytes 6_000) 6_000
unfolding of_le_bytes
frame-IsBeacon = record {
  stamped = record {
    clocks = (omega arith, omega arith);
    low_bits = refl;
    before = omega arith;
    after = omega arith;
  };
  beacon = refl;
  locked = refl;
  in_range = (omega arith, omega arith);
}

-- A board whose clock reads `own` when the access point's reads `ap`.
abbrev client_at : ℕ → ℕ → Client
client_at own ap = record new {
  locked_bssid = some bssid;
  latest_beacon =
      some (record { instant_us = 900; own_tsf_us = own; ap_tsf_us = ap; extra_us = 0 });
}

new-IsReadyFor : (alpha beta : ℕ) → 0 < alpha → 0 < beta → IsReadyFor 1 (AlphaBeta.new alpha beta)
new-IsReadyFor alpha beta ha hb = record {
  small = (omega arith, omega arith);
  rate = (omega arith, omega arith);
  alpha_pos = ha;
  beta_pos = hb;
}

none-IsReadyFor : (alpha beta : ℕ) → 0 < alpha → 0 < beta → IsReadyFor 0 (AlphaBeta.new alpha beta)
none-IsReadyFor alpha beta ha hb = record {
  small = (omega arith, omega arith);
  rate = (omega arith, omega arith);
  alpha_pos = ha;
  beta_pos = hb;
}

a-IsIdle : IsIdle bssid 1 (client_at 1_000 501_000) 1_000 501_000 [] []
unfolding keep_last
a-IsIdle = record {
  difference = inl refl;
  network = refl;
  hook = tt;
  instant_filter = new-IsReadyFor 16 2_048 (omega arith) (omega arith);
  extra_filter = new-IsReadyFor 512 2_048 (omega arith) (omega arith);
  anchor = (refl, refl);
  samples = refl;
  beacon_window = new-Inv;
  wall_window = new-Inv;
}

b-IsIdle : IsIdle bssid 0 (client_at 3_000 501_010) 3_000 501_010 [] []
unfolding keep_last
b-IsIdle = record {
  difference = inl refl;
  network = refl;
  hook = tt;
  instant_filter = none-IsReadyFor 16 2_048 (omega arith) (omega arith);
  extra_filter = none-IsReadyFor 512 2_048 (omega arith) (omega arith);
  anchor = (refl, refl);
  samples = refl;
  beacon_window = new-Inv;
  wall_window = new-Inv;
}

abbrev four : Arrival → List Heard → List Heard
four q hs = packet q ∷ packet q ∷ packet q ∷ packet q ∷ hs

abbrev a : Board
a = record {
  bssid = bssid;
  client = client_at 1_000 501_000;
  anchor_own = 1_000;
  anchor_ap = 501_000;
  heard =
      four (arrival 4_990 504_990)
        (beacon_at (frame beacon_bytes 6_000) 6_000 ∷ four (arrival 7_990 507_991) []);
  own_tsf = 100_000;
}

abbrev b : Board
b = record {
  bssid = bssid;
  client = client_at 3_000 501_010;
  anchor_own = 3_000;
  anchor_ap = 501_010;
  heard = four (arrival 4_990 503_000) (four (arrival 4_990 503_000) []);
  own_tsf = 101_990;
}

abbrev lo : ℕ
lo = 1_699_999_999_792_000_000

abbrev hi : ℕ
hi = 1_699_999_999_797_000_000

a-IsSynced : IsSynced lo hi 600_001 a
unfolding shift_tsf wrap_i ◌+ℤ◌ ◌-ℤ◌ of_le_bytes
a-IsSynced =
    let q = arrival-IsArrival 1_000 501_000 4_990 504_990 (omega arith) refl (omega arith) in
    let r = arrival-IsArrival 6_000 506_001 7_990 507_991 (omega arith) refl (omega arith) in
    record {
      idle = a-IsIdle;
      hears = (q, (q, (q, (q, (frame-IsBeacon, (r, (r, (r, (r, tt)))))))));
      ahead = omega arith;
      enough = omega arith;
      reads = refl;
    }

b-IsSynced : IsSynced lo hi 600_000 b
unfolding shift_tsf wrap_i ◌+ℤ◌ ◌-ℤ◌ of_le_bytes
b-IsSynced =
    let q = arrival-IsArrival 3_000 501_010 4_990 503_000 (omega arith) refl (omega arith) in
    record {
      idle = b-IsIdle;
      hears = (q, (q, (q, (q, (q, (q, (q, (q, tt))))))));
      ahead = omega arith;
      enough = omega arith;
      reads = refl;
    }

boards_agree_example :
    (c d : Client) × (p q : ℕ) × (arrive_all bounded a.client (frames a.heard) ≡ ret c)
    × (arrive_all bounded b.client (frames b.heard) ≡ ret d)
    × (synced_ns_at_own_tsf c 100_000 ≡ some p)
    × (synced_ns_at_own_tsf d 101_990 ≡ some q)
    × (p + lo ≤ q + hi + 1 * 1_000)
    × (q + lo ≤ p + hi + 1 * 1_000)
    × (lo + 600_001 * 1_000 ≤ p)
    × (p ≤ hi + 600_001 * 1_000)
    × (lo + 600_000 * 1_000 ≤ q)
    × (q ≤ hi + 600_000 * 1_000)
boards_agree_example =
    boards_agree bounded lo hi 600_001 600_000 1 a b bounded-IsTrySend a-IsSynced b-IsSynced
      (omega arith) (omega arith) (omega arith) (omega arith) (omega arith)
