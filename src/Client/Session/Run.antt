-- ===== src/Client/Session/Run.antt =====
-- Any number of packets and beacons, one after the other: no panic, and what they leave.
use mathlib.Core.List.{append_assoc, append-nil}
use esp_clock_sync.Prelude.{
  ℕ, suc, ◌^◌, ◌<◌, ◌≡◌, refl, ap, ◌∙◌, List, [], ◌∷◌, ◌++◌, Option, none, some, arith, length, ltb,
  if◌then◌else◌, ret,
}
use esp_clock_sync.Estimator.{Sample, window}
use esp_clock_sync.AlphaBeta.Ready.{IsReadyFor}
use esp_clock_sync.Window.{keep_last}
use esp_clock_sync.Estimator.History.{Inv}
use esp_clock_sync.Client.{
  TrySend, IsTrySend, Client, Frame, BeaconAnchor, SnifferEvent, channel_depth, beacon, udp,
  ap_tsf_of, fetch_add, anchor_of, invoke_beacon_hook,
}
use esp_clock_sync.Client.Conversions.{shift_tsf, own_tsf_to_ap_tsf}
use esp_clock_sync.Client.Tasks.{consume_samples}
use esp_clock_sync.Client.Beacon.{queued}
use esp_clock_sync.Client.Receive.{IsDelta, delta_of, application_of, rx_cb_udp, rx_cb_beacon}
use esp_clock_sync.Client.Consume.{Consumed, wall_samples, beacon_samples, consume_samples-Inv}
use esp_clock_sync.Client.Backlog.{Inv-extend}
use esp_clock_sync.Client.Session.{
  arrive, arrive_all, Arrival, sample_of, IsArrival, Heard, packet, beacon_at, frames, beacon_of,
  IsBeacon, IsHeard, last_anchor, n_beacons, walls, beacons, IsHook, IsAnchor, IsIdle,
}

pub own_tsf_to_ap_tsf-anchor :
    (c : Client) (own ap_tsf t : ℕ)
    → IsAnchor own ap_tsf c.latest_beacon
    → own_tsf_to_ap_tsf c t ≡ shift_tsf own ap_tsf t
unfolding own_tsf_to_ap_tsf
own_tsf_to_ap_tsf-anchor c own ap_tsf t h = shown c.latest_beacon refl h
  where
    shown :
        (o : Option BeaconAnchor)
        → c.latest_beacon ≡ o
        → IsAnchor own ap_tsf o
        → own_tsf_to_ap_tsf c t ≡ shift_tsf own ap_tsf t
    shown none e k = absurd k
    shown (some a) e (p, q) = rw (e, p, q) refl

-- The consumer's round on the one event in the queue.
module _ (c : Client) (bssid : List ℕ) (k own ap_tsf : ℕ) (bs us : List Sample)
    (difference : IsDelta c.instant_minus_tsf) (network : c.locked_bssid ≡ some bssid)
    (hook : IsHook c.beacon_hook) (instant_filter : IsReadyFor k c.instant_filter)
    (extra_filter : IsReadyFor k c.extra_filter) (anchor : IsAnchor own ap_tsf c.latest_beacon)
    (vb : Inv c.beacon_est (keep_last window bs)) (vu : Inv c.udp_est (keep_last window us)) where
  Consumed-IsIdle :
      (c' : Client) (event : SnifferEvent) (new_bs new_us : List Sample)
      → Consumed c c' event [] (keep_last window bs) (keep_last window us)
      → beacon_samples event ≡ new_bs
      → wall_samples c event ≡ new_us
      → length new_bs < 2
      → length new_us < 2
      → IsIdle bssid k c' own ap_tsf (bs ++ new_bs) (us ++ new_us)
  Consumed-IsIdle c' event new_bs new_us done is_b is_u few_b few_u = record {
    difference = rw done.difference difference;
    network = done.network ∙ network;
    hook = rw done.hook hook;
    instant_filter = rw done.instant_filter instant_filter;
    extra_filter = rw done.extra_filter extra_filter;
    anchor = rw done.anchor anchor;
    samples = done.samples;
    beacon_window =
        Inv-extend c.beacon_est c'.beacon_est bs new_bs vb (omega arith) (rw is_b at done.beacons);
    wall_window =
        Inv-extend c.udp_est c'.udp_est us new_us vu (omega arith) (rw is_u at done.walls);
  }

  consume_packet :
      (q : Arrival)
      → IsArrival own ap_tsf q
      → c.samples ≡ udp q.packet.send_unix_ns q.received ∷ []
      → (c' : Client) × (consume_samples c ≡ ret c')
        × IsIdle bssid k c' own ap_tsf (bs ++ []) (us ++ sample_of q ∷ [])
  consume_packet q h queue =
      let at_ap = own_tsf_to_ap_tsf-anchor c own ap_tsf q.received anchor ∙ h.at_ap in
      let wall : wall_samples c (udp q.packet.send_unix_ns q.received) ≡ sample_of q ∷ [] =
        rw (wall_samples, at_ap) refl in
      let (c', runs, done) =
        consume_samples-Inv c (udp q.packet.send_unix_ns q.received) [] (keep_last window bs)
          (keep_last window us) vb vu queue tt (rw wall (h.in_range, tt)) in
      (
        c',
        runs,
        Consumed-IsIdle c' (udp q.packet.send_unix_ns q.received) [] (sample_of q ∷ []) done refl
            wall (omega arith) (omega arith),
      )

  consume_beacon_at :
      (p : Frame) (received : ℕ) (a : BeaconAnchor)
      → IsBeacon bssid p received
      → a.own_tsf_us ≡ received
      → a.ap_tsf_us ≡ ap_tsf_of p.data_bytes
      → c.samples ≡ beacon a ∷ []
      → (c' : Client) × (consume_samples c ≡ ret c')
        × IsIdle bssid k c' own ap_tsf (bs ++ beacon_of p received ∷ []) (us ++ [])
  consume_beacon_at p received a h is_own is_ap queue =
      let shown : beacon_samples (beacon a) ≡ beacon_of p received ∷ [] = rw (is_own, is_ap) refl in
      let range = h.in_range in
      let (c', runs, done) =
        consume_samples-Inv c (beacon a) [] (keep_last window bs) (keep_last window us) vb vu queue
          ((omega arith, omega arith), tt) tt in
      (
        c',
        runs,
        Consumed-IsIdle c' (beacon a) (beacon_of p received ∷ []) [] done shown refl (omega arith)
            (omega arith),
      )

-- A packet adds its sample, and leaves the board idle again.
arrive_packet :
    (try_send : TrySend) (c : Client) (bssid : List ℕ) (k own ap_tsf : ℕ) (bs us : List Sample)
    (q : Arrival)
    → IsTrySend try_send
    → IsIdle bssid k c own ap_tsf bs us
    → IsArrival own ap_tsf q
    → (c' : Client) × (arrive try_send c q.frame ≡ ret c')
      × IsIdle bssid k c' own ap_tsf bs (us ++ sample_of q ∷ [])
unfolding arrive
arrive_packet try_send c bssid k own ap_tsf bs us q sends v h =
    let s = h.stamped in
    let (receives, small) =
      rx_cb_udp try_send c q.frame q.header q.rest q.packet q.received sends v.difference s.clocks
        s.low_bits s.before s.after h.no_beacon h.valid h.clear h.carries in
    let after : Client = record c {
      application = application_of c q.frame;
      frames_seen = fetch_add c.frames_seen;
      frames_matched = fetch_add c.frames_matched;
      instant_minus_tsf = delta_of c q.frame;
      samples = queued c.samples (udp q.packet.send_unix_ns q.received);
      samples_dropped =
          if ltb (length c.samples) channel_depth
          then c.samples_dropped
          else fetch_add c.samples_dropped;
    } in
    let (c', runs, idle) =
      consume_packet after bssid k own ap_tsf bs us small v.network v.hook v.instant_filter
        v.extra_filter v.anchor v.beacon_window v.wall_window q h
        (ap (λ l. queued l (udp q.packet.send_unix_ns q.received)) v.samples) in
    (c', rw receives runs, rw append-nil at idle)

IsHook-lt :
    (c : Client) (moment : ℕ) → IsHook c.beacon_hook → (invoke_beacon_hook c moment).0 < 2 ^ 64
IsHook-lt c moment h = shown c.beacon_hook refl h
  where
    shown :
        (o : Option (ℕ → ℕ → ℕ × ℕ))
        → c.beacon_hook ≡ o
        → IsHook o
        → (invoke_beacon_hook c moment).0 < 2 ^ 64
    shown none e k = rw e (omega arith)
    shown (some f) e k = rw e (k moment c.application)

-- A beacon adds its sample and becomes the anchor, and leaves the board idle again.
arrive_beacon :
    (try_send : TrySend) (c : Client) (bssid : List ℕ) (k own ap_tsf : ℕ) (bs us : List Sample)
    (p : Frame) (received : ℕ)
    → IsTrySend try_send
    → IsIdle bssid (suc k) c own ap_tsf bs us
    → IsBeacon bssid p received
    → (c' : Client) × (arrive try_send c p ≡ ret c')
      × IsIdle bssid k c' received (ap_tsf_of p.data_bytes) (bs ++ beacon_of p received ∷ []) us
unfolding arrive
arrive_beacon try_send c bssid k own ap_tsf bs us p received sends v h =
    let s = h.stamped in
    let (f, g, receives, observed, next_i, next_x, is_own, small) =
      rx_cb_beacon try_send c p received k sends v.difference s.clocks v.instant_filter
        v.extra_filter (IsHook-lt c p.moment v.hook) s.low_bits s.before s.after h.beacon
        (rw v.network h.locked) in
    let after : Client = record c {
      application = application_of c p;
      frames_seen = fetch_add c.frames_seen;
      instant_minus_tsf = delta_of c p;
      beacons_seen = fetch_add c.beacons_seen;
      beacons_used = fetch_add c.beacons_used;
      latest_beacon = some (anchor_of c p);
      instant_filter = f;
      extra_filter = g;
      samples = queued c.samples (beacon (anchor_of c p));
    } in
    let (c', runs, idle) =
      consume_beacon_at after bssid k received (ap_tsf_of p.data_bytes) bs us small v.network v.hook
        next_i next_x (is_own, refl) v.beacon_window v.wall_window p received (anchor_of c p) h
        is_own refl (ap (λ l. queued l (beacon (anchor_of c p))) v.samples) in
    (c', rw receives runs, rw append-nil at idle)

-- Any number of packets, and as many beacons as the filters are ready for, each taken by the consumer
-- before the next, cause no panic: each estimator is fitted to the newest 256 of its samples, and the
-- anchor is that of the last beacon.
pub arrive_all-IsIdle :
    (try_send : TrySend) (hs : List Heard) (c : Client) (bssid : List ℕ) (own ap_tsf : ℕ)
    (bs us : List Sample)
    → IsTrySend try_send
    → IsIdle bssid (n_beacons hs) c own ap_tsf bs us
    → IsHeard bssid own ap_tsf hs
    → let (own', ap_tsf') = last_anchor own ap_tsf hs in
      (c' : Client) × (arrive_all try_send c (frames hs) ≡ ret c')
      × IsIdle bssid 0 c' own' ap_tsf' (bs ++ beacons hs) (us ++ walls hs)
unfolding arrive_all
arrive_all-IsIdle try_send [] c bssid own ap_tsf bs us sends v h =
    (c, refl, rw (append-nil, append-nil) v)
arrive_all-IsIdle try_send (packet q ∷ hs) c bssid own ap_tsf bs us sends v h =
    let (c1, runs, v1) =
      arrive_packet try_send c bssid (n_beacons hs) own ap_tsf bs us q sends v h.0 in
    let (c', rest, v') =
      arrive_all-IsIdle try_send hs c1 bssid own ap_tsf bs (us ++ sample_of q ∷ []) sends v1 h.1 in
    (c', rw runs rest, rw append_assoc at v')
arrive_all-IsIdle try_send (beacon_at p received ∷ hs) c bssid own ap_tsf bs us sends v h =
    let (c1, runs, v1) =
      arrive_beacon try_send c bssid (n_beacons hs) own ap_tsf bs us p received sends v h.0 in
    let (c', rest, v') =
      arrive_all-IsIdle try_send hs c1 bssid received (ap_tsf_of p.data_bytes)
        (bs ++ beacon_of p received ∷ []) us sends v1 h.1 in
    (c', rw runs rest, rw append_assoc at v')
