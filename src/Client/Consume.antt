-- ===== src/Client/Consume.antt =====
-- The consumer task: no panic, and the windows of the two estimators.
use mathlib.Core.List.{append-nil}
use esp_clock_sync.Prelude.{
  All, Option-cases, inl, inr, ℕ, ◌*◌, ◌≡◌, refl, ap, ◌∙◌, List, [], ◌∷◌, ◌++◌, none, some, arith,
  ret,
}
use esp_clock_sync.Prelude.Words.{saturate_u-fits}
use esp_clock_sync.Estimator.{Estimator, Sample, window}
use esp_clock_sync.Window.{keep_last}
use esp_clock_sync.Window.Push.{Holds-sizes, keep_last_all}
use esp_clock_sync.Estimator.Offsets.{InRange}
use esp_clock_sync.Estimator.History.{Inv, observe-Inv}
use esp_clock_sync.Client.{Client, BeaconAnchor, SnifferEvent, beacon, udp}
use esp_clock_sync.Client.Conversions.{own_tsf_to_ap_tsf}
use esp_clock_sync.Client.Tasks.{consume_samples, consume_next, consume}

-- The sample that an event adds to the window of the wall clock, and to that of the beacons.
abbrev pub wall_samples : Client → SnifferEvent → List Sample
wall_samples c (beacon a) = []
wall_samples c (udp server_ns own_tsf) = elim (own_tsf_to_ap_tsf c own_tsf) [
  | none ↦ []
  | some t ↦ (record { server_ns = server_ns; local_us = t }) ∷ []
]

abbrev pub beacon_samples : SnifferEvent → List Sample
beacon_samples (beacon a) = record { server_ns = a.ap_tsf_us * 1_000; local_us = a.own_tsf_us } ∷ []
beacon_samples (udp server_ns own_tsf) = []

untouched : (e : Estimator) (xs : List Sample) → Inv e xs → Inv e (keep_last window (xs ++ []))
untouched e xs v =
    let sizes = Holds-sizes window _ _ _ xs v.holds in
    rw (append-nil, keep_last_all {A = Sample} window xs (omega arith)) v

-- The client after an event: both windows, the rest of the channel, and the anchor, the difference of
-- the clocks, the filters, the network and the hook as they were.
pub record Consumed (c c' : Client) (event : SnifferEvent) (rest : List SnifferEvent)
    (bs us : List Sample) : Type 0 where
  pub samples : c'.samples ≡ rest
  pub beacons : Inv c'.beacon_est (keep_last window (bs ++ beacon_samples event))
  pub walls : Inv c'.udp_est (keep_last window (us ++ wall_samples c event))
  pub anchor : c'.latest_beacon ≡ c.latest_beacon
  pub difference : c'.instant_minus_tsf ≡ c.instant_minus_tsf
  pub instant_filter : c'.instant_filter ≡ c.instant_filter
  pub extra_filter : c'.extra_filter ≡ c.extra_filter
  pub network : c'.locked_bssid ≡ c.locked_bssid
  pub hook : c'.beacon_hook ≡ c.beacon_hook

module _ (c : Client) (rest : List SnifferEvent) (bs us : List Sample) (vb : Inv c.beacon_est bs)
    (vu : Inv c.udp_est us) where
  consume_beacon :
      (a : BeaconAnchor)
      → InRange (record { server_ns = a.ap_tsf_us * 1_000; local_us = a.own_tsf_us })
      → (c' : Client) × (consume (record c { samples = rest }) (beacon a) ≡ ret c')
        × Consumed c c' (beacon a) rest bs us
  unfolding consume
  consume_beacon a h =
      let (e, runs, inv, last) = observe-Inv c.beacon_est bs _ vb h in
      (
        record c { samples = rest; beacon_est = e },
        rw (saturate_u-fits 128 (a.ap_tsf_us * 1_000) (omega arith), runs) refl,
        record {
          samples = refl;
          beacons = inv;
          walls = untouched c.udp_est us vu;
          anchor = refl;
          difference = refl;
          instant_filter = refl;
          extra_filter = refl;
          network = refl;
          hook = refl;
        },
      )

  consume_udp :
      (server_ns own_tsf : ℕ)
      → All InRange (wall_samples c (udp server_ns own_tsf))
      → (c' : Client) × (consume (record c { samples = rest }) (udp server_ns own_tsf) ≡ ret c')
        × Consumed c c' (udp server_ns own_tsf) rest bs us
  unfolding consume own_tsf_to_ap_tsf
  consume_udp server_ns own_tsf h = elim (Option-cases (own_tsf_to_ap_tsf c own_tsf)) [
    | inl unknown ↦ (
      record c { samples = rest },
      rw unknown refl,
      record {
        samples = refl;
        beacons = untouched c.beacon_est bs vb;
        walls = rw (wall_samples, unknown) (untouched c.udp_est us vu);
        anchor = refl;
        difference = refl;
        instant_filter = refl;
        extra_filter = refl;
        network = refl;
        hook = refl;
      },
    )
    | inr (t, known) ↦
        let h' : All InRange (record { server_ns = server_ns; local_us = t } ∷ []) =
          rw (wall_samples, known) at h in
        let (e, runs, inv, last) = observe-Inv c.udp_est us _ vu h'.0 in
        (
          record c { samples = rest; udp_est = e },
          rw (known, runs) refl,
          record {
            samples = refl;
            beacons = untouched c.beacon_est bs vb;
            walls = rw (wall_samples, known) inv;
            anchor = refl;
            difference = refl;
            instant_filter = refl;
            extra_filter = refl;
            network = refl;
            hook = refl;
          },
        )
  ]

-- One round of the consumer on a queue with an event in range ends with no panic. It takes the
-- oldest event, adds the beacon's sample to the window of the beacons, or the packet's to that of
-- the wall clock where there is an anchor, and leaves both estimators fitted to their windows.
pub consume_samples-Inv :
    (c : Client) (event : SnifferEvent) (rest : List SnifferEvent) (bs us : List Sample)
    → Inv c.beacon_est bs
    → Inv c.udp_est us
    → c.samples ≡ event ∷ rest
    → All InRange (beacon_samples event)
    → All InRange (wall_samples c event)
    → (c' : Client) × (consume_samples c ≡ ret c') × Consumed c c' event rest bs us
unfolding consume_samples
consume_samples-Inv c (beacon a) rest bs us vb vu queue hb hu =
    let (c', runs, done) = consume_beacon c rest bs us vb vu a hb.0 in
    (c', ap (consume_next c) queue ∙ runs, done)
consume_samples-Inv c (udp server_ns own_tsf) rest bs us vb vu queue hb hu =
    let (c', runs, done) = consume_udp c rest bs us vb vu server_ns own_tsf hu in
    (c', ap (consume_next c) queue ∙ runs, done)
