-- ===== src/Client/Backlog.antt =====
-- The consumer task on a backlog: as many rounds as events wait, with no frame received in between.
use mathlib.Core.List.{append_assoc, append-nil}
use esp_clock_sync.Prelude.{
  ℕ, zero, suc, ◌≤◌, ◌≡◌, refl, List, [], ◌∷◌, ◌++◌, inl, inr, arith, length, All, All-split, Exec,
  ret, ◌>>=◌, Option-cases,
}
use esp_clock_sync.Estimator.{Estimator, Sample, window}
use esp_clock_sync.Window.{keep_last}
use esp_clock_sync.Window.Push.{Holds-sizes, keep_last_all, keep_last-snoc}
use esp_clock_sync.Estimator.Offsets.{InRange}
use esp_clock_sync.Estimator.History.{Inv}
use esp_clock_sync.Client.{Client, SnifferEvent, beacon, udp}
use esp_clock_sync.Client.Conversions.{own_tsf_to_ap_tsf}
use esp_clock_sync.Client.Tasks.{consume_samples}
use esp_clock_sync.Client.Consume.{wall_samples, beacon_samples, consume_samples-Inv}

unfoldable pub consume_rounds : ℕ → Client → Exec Client
consume_rounds zero c = ret c
consume_rounds (suc n) c = consume_samples c >>= λ c'. consume_rounds n c'

-- The samples of the events, one after the other.
abbrev pub all_samples : (SnifferEvent → List Sample) → List SnifferEvent → List Sample
all_samples f [] = []
all_samples f (event ∷ events) = f event ++ all_samples f events

all_samples-eq :
    (f g : SnifferEvent → List Sample) (events : List SnifferEvent)
    → ((event : SnifferEvent) → f event ≡ g event)
    → all_samples f events ≡ all_samples g events
all_samples-eq f g [] h = refl
all_samples-eq f g (event ∷ events) h = rw (h event, all_samples-eq f g events h) refl

wall_samples-anchor :
    (c c' : Client) (event : SnifferEvent)
    → c'.latest_beacon ≡ c.latest_beacon
    → wall_samples c' event ≡ wall_samples c event
unfolding own_tsf_to_ap_tsf
wall_samples-anchor c c' (beacon a) h = refl
wall_samples-anchor c c' (udp server_ns own_tsf) h = rw h refl

length-beacon_samples : (event : SnifferEvent) → length (beacon_samples event) ≤ 1
length-beacon_samples (beacon a) = omega arith
length-beacon_samples (udp server_ns own_tsf) = omega arith

length-wall_samples : (c : Client) (event : SnifferEvent) → length (wall_samples c event) ≤ 1
length-wall_samples c (beacon a) = omega arith
length-wall_samples c (udp server_ns own_tsf) = elim (Option-cases (own_tsf_to_ap_tsf c own_tsf)) [
  | inl unknown ↦ rw (wall_samples, unknown) (omega arith)
  | inr (t, known) ↦ rw (wall_samples, known) (omega arith)
]

-- A window and at most one sample more.
pub Inv-extend :
    (e e' : Estimator) (ys xs : List Sample)
    → Inv e (keep_last window ys)
    → length xs ≤ 1
    → Inv e' (keep_last window (keep_last window ys ++ xs))
    → Inv e' (keep_last window (ys ++ xs))
Inv-extend e e' ys [] v h w =
    let sizes = Holds-sizes window _ _ _ _ v.holds in
    rw append-nil
      (rw (append-nil, keep_last_all {A = Sample} window (keep_last window ys) (omega arith)) at w)
Inv-extend e e' ys (x ∷ []) v h w = rw (keep_last-snoc window ys x (omega arith)) at w
Inv-extend e e' ys (x ∷ y ∷ xs) v h w = absurd (omega arith)

-- With every waiting event in range, as many rounds as events wait end with no panic and with an
-- empty queue. Each estimator is then fitted to the newest 256 of the samples it had and those of
-- the events, in the order in which these were queued.
pub consume_rounds-Inv :
    (events : List SnifferEvent) (c : Client) (bs us : List Sample)
    → Inv c.beacon_est (keep_last window bs)
    → Inv c.udp_est (keep_last window us)
    → c.samples ≡ events
    → All InRange (all_samples beacon_samples events)
    → All InRange (all_samples (wall_samples c) events)
    → (c' : Client) × (consume_rounds (length events) c ≡ ret c')
      × (c'.samples ≡ [])
      × Inv c'.beacon_est (keep_last window (bs ++ all_samples beacon_samples events))
      × Inv c'.udp_est (keep_last window (us ++ all_samples (wall_samples c) events))
unfolding consume_rounds
consume_rounds-Inv [] c bs us vb vu queue hb hu =
    (c, refl, queue, rw append-nil vb, rw append-nil vu)
consume_rounds-Inv (event ∷ events) c bs us vb vu queue hb hu =
    let (hb0, hb1) = All-split InRange (beacon_samples event) _ hb in
    let (hu0, hu1) = All-split InRange (wall_samples c event) _ hu in
    let (c1, runs, done) =
      consume_samples-Inv c event events (keep_last window bs) (keep_last window us) vb vu queue hb0
        hu0 in
    let same : all_samples (wall_samples c1) events ≡ all_samples (wall_samples c) events =
      all_samples-eq (wall_samples c1) (wall_samples c) events
        (λ later. wall_samples-anchor c c1 later done.anchor) in
    let (c', rest, empty, beacons, walls) =
      consume_rounds-Inv events c1 (bs ++ beacon_samples event) (us ++ wall_samples c event)
        (Inv-extend c.beacon_est c1.beacon_est bs (beacon_samples event) vb
          (length-beacon_samples event) done.beacons)
        (Inv-extend c.udp_est c1.udp_est us (wall_samples c event) vu (length-wall_samples c event)
          done.walls)
        done.samples hb1 (rw same hu1) in
    (c', rw runs rest, empty, rw append_assoc at beacons, rw (same, append_assoc) at walls)
