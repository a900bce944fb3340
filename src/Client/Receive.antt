-- ===== src/Client/Receive.antt =====
-- The receive callback, on a channel that does what is documented, on a beacon and on a sync packet:
-- no panic, and what it changes.
use esp_clock_sync.Prelude.{
  ℕ, suc, ◌+◌, ◌-◌, ◌%◌, ◌^◌, ◌≤◌, ◌<◌, ◌≡◌, refl, ◌⊎◌, inr, true, false, List, ◌++◌, some, arith,
  length, ltb, if◌then◌else◌, ret,
}
use esp_clock_sync.Prelude.Int.{ℤ, pos, negsuc, ◌-ℤ◌, ◌≤ℤ◌, -ℤ_parts}
use esp_clock_sync.Prelude.Words.{signed}
use esp_clock_sync.Packet.{SyncPacket, IsValid, to_bytes}
use esp_clock_sync.Packet.Find.{NoMagic, find_in_frame-to_bytes}
use esp_clock_sync.AlphaBeta.{AlphaBeta}
use esp_clock_sync.AlphaBeta.Ready.{IsReadyFor}
use esp_clock_sync.AlphaBeta
use esp_clock_sync.Client.{
  TrySend, IsTrySend, Client, Frame, beacon, udp, delta_unset, channel_depth, update_delta, rx_cb,
  fetch_add, beacon_path, queue_udp, anchor_of, udp_path, is_beacon, bssid_of, is_locked_on,
  invoke_beacon_hook,
}
use esp_clock_sync.Client.Tsf.{own_tsf_us-low_bits}
use esp_clock_sync.Client.Delta.{delta_after, update_delta_between}
use esp_clock_sync.Client.Beacon.{queued, offset_of, try_send-queued, use_beacon-ret}

-- The difference of the clocks, once it is known, is one of clocks below 2^62.
abbrev pub IsDelta : ℤ → Type 0
IsDelta d = (d ≡ delta_unset) ⊎ ((negsuc (2 ^ 62 - 1) ≤ℤ d) × (d ≤ℤ pos (2 ^ 62 - 1)))

-- The two clocks that the callback reads are below 2^62 µs.
abbrev pub HasClocks : Frame → Type 0
HasClocks p = (p.instant_us_at_cb < 2 ^ 62) × (p.own_tsf_at_cb < 2 ^ 62)

delta_bounds :
    (i o : ℕ)
    → i < 2 ^ 62
    → o < 2 ^ 62
    → (negsuc (2 ^ 62 - 1) ≤ℤ pos i -ℤ pos o) × (pos i -ℤ pos o ≤ℤ pos (2 ^ 62 - 1))
delta_bounds i o h k = let n = -ℤ_parts (pos i) (pos o) in (omega arith, omega arith)

-- The difference after the callback on the frame `p`.
abbrev pub delta_of : Client → Frame → ℤ
delta_of c p = delta_after c.instant_minus_tsf p.instant_us_at_cb p.own_tsf_at_cb

IsDelta-ret :
    (c : Client) (p : Frame)
    → IsDelta c.instant_minus_tsf
    → HasClocks p
    → (update_delta c.instant_minus_tsf p.instant_us_at_cb p.own_tsf_at_cb ≡ ret (delta_of c p))
      × IsDelta (delta_of c p)
IsDelta-ret c p h k =
    let b = delta_bounds p.instant_us_at_cb p.own_tsf_at_cb k.0 k.1 in
    let (runs, low, high) =
      update_delta_between c.instant_minus_tsf (negsuc (2 ^ 62 - 1)) (pos (2 ^ 62 - 1))
        p.instant_us_at_cb p.own_tsf_at_cb k.0 k.1 h b.0 b.1 (omega arith, omega arith)
        (omega arith, omega arith) in
    (runs, inr (low, high))

-- The application's statics after the hook that the callback calls.
abbrev pub application_of : Client → Frame → ℕ
application_of c p = (invoke_beacon_hook c p.moment).1

-- A beacon of a network that is not locked on counts, runs the hook and smooths the difference of the
-- clocks, and changes nothing else: the anchor, the filters, the estimators and the channel stay.
pub rx_cb_foreign :
    (try_send : TrySend) (c : Client) (p : Frame)
    → IsDelta c.instant_minus_tsf
    → HasClocks p
    → is_beacon p.data_bytes ≡ true
    → is_locked_on c.locked_bssid (bssid_of p.data_bytes) ≡ false
    → (rx_cb try_send c p
        ≡ ret (record c {
          application = application_of c p;
          frames_seen = fetch_add c.frames_seen;
          beacons_seen = fetch_add c.beacons_seen;
          instant_minus_tsf = delta_of c p;
        }))
      × IsDelta (delta_of c p)
unfolding rx_cb beacon_path
rx_cb_foreign try_send c p h k is other =
    let (runs, next) = IsDelta-ret c p h k in (rw (runs, is, other) refl, next)

-- With a channel as documented: a beacon of the locked network ends with no panic where both filters
-- are ready for one observation more than `k`, and leaves them ready for `k`. It is the latest anchor from then on: with the reading
-- of the `Instant` clock in the callback, with the reading of the hook, and with the latest board time
-- up to the reading of the TSF whose 32 low bits are the frame's timestamp. The filter of the `Instant`
-- clock has observed it, the hook has run, and it is queued where the channel has room, else dropped
-- with no count. The counters of frames and beacons and the difference of the clocks move on, and
-- nothing else changes but the filter of the extra timer.
pub rx_cb_beacon :
    (try_send : TrySend) (c : Client) (p : Frame) (received k : ℕ)
    → IsTrySend try_send
    → IsDelta c.instant_minus_tsf
    → HasClocks p
    → IsReadyFor (suc k) c.instant_filter
    → IsReadyFor (suc k) c.extra_filter
    → (anchor_of c p).extra_us < 2 ^ 64
    → p.timestamp ≡ received % 2 ^ 32
    → received ≤ p.own_tsf_at_cb
    → p.own_tsf_at_cb < received + 2 ^ 32
    → is_beacon p.data_bytes ≡ true
    → is_locked_on c.locked_bssid (bssid_of p.data_bytes) ≡ true
    → (f g : AlphaBeta) × (rx_cb try_send c p
        ≡ ret (record c {
          application = application_of c p;
          frames_seen = fetch_add c.frames_seen;
          instant_minus_tsf = delta_of c p;
          beacons_seen = fetch_add c.beacons_seen;
          beacons_used = fetch_add c.beacons_used;
          latest_beacon = some (anchor_of c p);
          instant_filter = f;
          extra_filter = g;
          samples = queued c.samples (beacon (anchor_of c p));
        }))
      × (AlphaBeta.observe c.instant_filter
            (signed 64 p.instant_us_at_cb)
            (offset_of (anchor_of c p))
          ≡ ret f)
      × IsReadyFor k f
      × IsReadyFor k g
      × ((anchor_of c p).own_tsf_us ≡ received)
      × IsDelta (delta_of c p)
unfolding rx_cb beacon_path
rx_cb_beacon try_send c p received k sends h clocks ready_i ready_x hook low before after is
      locked =
    let (runs, next) = IsDelta-ret c p h clocks in
    let c' : Client = record c {
      application = application_of c p;
      frames_seen = fetch_add c.frames_seen;
      instant_minus_tsf = delta_of c p;
      beacons_seen = fetch_add c.beacons_seen;
    } in
    let (f, g, used, observed, next_i, next_x) =
      use_beacon-ret try_send c' (anchor_of c p) k sends ready_i ready_x hook in
    (
      f,
      g,
      rw (runs, is, locked) used,
      observed,
      next_i,
      next_x,
      rw low (own_tsf_us-low_bits received p.own_tsf_at_cb before after (omega arith)),
      next,
    )

-- With a channel as documented: a frame that is no beacon and carries a sync packet, behind headers in which the magic does not
-- start, queues the server's time of that packet with the latest board time up to the reading of the
-- TSF whose 32 low bits are the frame's timestamp. When the channel is full the packet is dropped and
-- counted instead. The frame is counted as seen and as matched, the hook has run, the difference of
-- the clocks is smoothed, and nothing else changes.
pub rx_cb_udp :
    (try_send : TrySend) (c : Client) (p : Frame) (header rest : List ℕ) (packet : SyncPacket)
    (received : ℕ)
    → IsTrySend try_send
    → IsDelta c.instant_minus_tsf
    → HasClocks p
    → p.timestamp ≡ received % 2 ^ 32
    → received ≤ p.own_tsf_at_cb
    → p.own_tsf_at_cb < received + 2 ^ 32
    → is_beacon p.data_bytes ≡ false
    → IsValid packet
    → NoMagic header (to_bytes packet ++ rest)
    → p.data_bytes ≡ header ++ (to_bytes packet ++ rest)
    → (rx_cb try_send c p
        ≡ ret (record c {
          application = application_of c p;
          frames_seen = fetch_add c.frames_seen;
          frames_matched = fetch_add c.frames_matched;
          instant_minus_tsf = delta_of c p;
          samples = queued c.samples (udp packet.send_unix_ns received);
          samples_dropped =
              if ltb (length c.samples) channel_depth
              then c.samples_dropped
              else fetch_add c.samples_dropped;
        }))
      × IsDelta (delta_of c p)
unfolding rx_cb udp_path queue_udp
rx_cb_udp try_send c p header rest packet received sends h k low before after is v clear carries =
    let (runs, next) = IsDelta-ret c p h k in
    (
      rw
          (
            runs,
            is,
            carries,
            find_in_frame-to_bytes header rest packet v clear,
            low,
            own_tsf_us-low_bits received p.own_tsf_at_cb before after (omega arith),
            try_send-queued try_send c.samples (udp packet.send_unix_ns received) sends,
          )
          (ground arith),
      next,
    )
