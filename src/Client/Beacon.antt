-- ===== src/Client/Beacon.antt =====
-- The receive callback's part for a beacon of the locked network, on a channel that does what is
-- documented: no panic, and what it changes.
use esp_clock_sync.Prelude.{
  ℕ, suc, ◌*◌, ◌^◌, ◌<◌, ◌≡◌, refl, inl, inr, List, [], ◌∷◌, ◌++◌, none, some, arith, length,
  Bool-cases, ltb, ◌==◌, if◌then◌else◌, ret,
}
use esp_clock_sync.Prelude.Int.{ℤ, pos, ◌-ℤ◌, quot, pos-*ℤ-pos}
use esp_clock_sync.Prelude.Words.{signed, wrap_i, wrap_i-fits, wrap_i-FitsI, div_i-ret, shl}
use esp_clock_sync.AlphaBeta.{AlphaBeta}
use esp_clock_sync.AlphaBeta.Ready.{IsReadyFor, IsReadyFor-fewer, observe-IsReadyFor}
use esp_clock_sync.AlphaBeta
use esp_clock_sync.Client.{
  TrySend, IsTrySend, Client, BeaconAnchor, SnifferEvent, beacon, channel_depth, fetch_add,
  extra_in_us, observe_extra, feed_extra, use_beacon,
}

-- The channel after an event: at its end while there is room, or dropped.
abbrev pub queued : List SnifferEvent → SnifferEvent → List SnifferEvent
queued events event = if ltb (length events) channel_depth then events ++ event ∷ [] else events

pub try_send-queued :
    (try_send : TrySend) (events : List SnifferEvent) (event : SnifferEvent)
    → IsTrySend try_send
    → try_send events event
      ≡ (if ltb (length events) channel_depth then some (events ++ event ∷ []) else none)
try_send-queued try_send events event sends =
    elim (Bool-cases (ltb (length events) channel_depth)) [
      | inl free ↦ rw free (sends.with_room events event (ground arith))
      | inr full ↦ rw full (sends.when_full events event (ground arith))
    ]

-- What the filter of the `Instant` clock observes on a beacon: the access point's time less that of
-- the clock.
abbrev pub offset_of : BeaconAnchor → ℤ
offset_of a = wrap_i 64 (signed 64 a.ap_tsf_us -ℤ signed 64 a.instant_us)

extra_in_us-ret :
    (extra q32 : ℕ) → extra < 2 ^ 64 → 0 < q32 → (x : ℤ) × (extra_in_us extra q32 ≡ ret x)
unfolding extra_in_us shl
extra_in_us-ret extra q32 h hq = (
  wrap_i 64 (quot (pos (extra * 2 ^ 32)) (pos q32)),
  rw
      (
        pos-*ℤ-pos extra (2 ^ 32),
        wrap_i-fits 128 (pos (extra * 2 ^ 32)) (omega arith) (omega arith),
        div_i-ret 128 (pos (extra * 2 ^ 32)) q32 hq (omega arith),
      )
      refl,
)

feed_extra-ret :
    (c : Client) (a : BeaconAnchor) (k : ℕ)
    → IsReadyFor (suc k) c.extra_filter
    → a.extra_us < 2 ^ 64
    → (f : AlphaBeta) × (feed_extra c a ≡ ret (record c { extra_filter = f })) × IsReadyFor k f
unfolding feed_extra observe_extra
feed_extra-ret c a k ready h = elim (Bool-cases (c.extra_per_us_q32 == 0)) [
  | inl off ↦ (c.extra_filter, rw off refl, IsReadyFor-fewer c.extra_filter k ready)
  | inr on ↦
      let (x, at_x) = extra_in_us-ret a.extra_us c.extra_per_us_q32 h (ground arith) in
      let (f, runs, next) =
        observe-IsReadyFor c.extra_filter k x (wrap_i 64 (signed 64 a.ap_tsf_us -ℤ x)) ready
          (wrap_i-FitsI 64 _ (omega arith)) in
      (f, rw (on, at_x, runs) refl, next)
]

-- A beacon of the locked network is recorded.
pub use_beacon-ret :
    (try_send : TrySend) (c : Client) (a : BeaconAnchor) (k : ℕ)
    → IsTrySend try_send
    → IsReadyFor (suc k) c.instant_filter
    → IsReadyFor (suc k) c.extra_filter
    → a.extra_us < 2 ^ 64
    → (f g : AlphaBeta) × (use_beacon try_send c a
        ≡ ret (record c {
          beacons_used = fetch_add c.beacons_used;
          latest_beacon = some a;
          instant_filter = f;
          extra_filter = g;
          samples = queued c.samples (beacon a);
        }))
      × (AlphaBeta.observe c.instant_filter (signed 64 a.instant_us) (offset_of a) ≡ ret f)
      × IsReadyFor k f
      × IsReadyFor k g
unfolding use_beacon
use_beacon-ret try_send c a k sends ready_i ready_x h =
    let (f, runs, next_i) =
      observe-IsReadyFor c.instant_filter k (signed 64 a.instant_us) (offset_of a) ready_i
        (wrap_i-FitsI 64 _ (omega arith)) in
    let c' : Client = record c {
      beacons_used = fetch_add c.beacons_used;
      latest_beacon = some a;
      instant_filter = f;
    } in
    let (g, fed, next_x) = feed_extra-ret c' a k ready_x h in
    (
      f,
      g,
      rw (runs, fed, try_send-queued try_send c.samples (beacon a) sends) (ground arith),
      runs,
      next_i,
      next_x,
    )
