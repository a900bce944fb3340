-- ===== src/Client/Agreement.antt =====
-- Two boards that hear packets of the same server and beacons of the same access point, and an event
-- whose time each reads from its own clock.
mod Tests
use esp_clock_sync.Prelude.{
  ℕ, ◌+◌, ◌-◌, ◌*◌, ◌^◌, ◌≤◌, ◌<◌, ◌≡◌, refl, ◌∙◌, List, [], ◌∷◌, ◌++◌, some, arith, length,
  length-drop, All, ret,
}
use esp_clock_sync.Estimator.{Sample, window}
use esp_clock_sync.Window.{keep_last}
use esp_clock_sync.Window.Push.{keep_last-All}
use esp_clock_sync.Estimator.Queries.{IsAhead, synced_ns_at_bounds}
use esp_clock_sync.Client.{TrySend, IsTrySend, Client}
use esp_clock_sync.Client.Conversions.{shift_tsf, own_tsf_to_ap_tsf}
use esp_clock_sync.Client.Handle.{synced_ns_at_own_tsf}
use esp_clock_sync.Client.Session.{
  Heard, IsHeard, IsAnchor, IsIdle, frames, last_anchor, n_beacons, walls, arrive_all,
}
use esp_clock_sync.Client.Session.Run.{arrive_all-IsIdle, own_tsf_to_ap_tsf-anchor}

length-keep_last : (us : List Sample) → 8 ≤ length us → 8 ≤ length (keep_last window us)
unfolding keep_last
length-keep_last us h = omega (arith, length-drop (length us - window) us)

-- An idle client whose samples are all `lo` to `hi` ns ahead answers within these bounds.
synced_within :
    (c : Client) (bssid : List ℕ) (k anchor_own anchor_ap : ℕ) (bs us : List Sample)
    (lo hi own t : ℕ)
    → IsIdle bssid k c anchor_own anchor_ap bs us
    → 8 ≤ length us
    → All (IsAhead lo hi) us
    → hi < 2 ^ 72
    → t < 2 ^ 64
    → shift_tsf anchor_own anchor_ap own ≡ some t
    → (p : ℕ) × (synced_ns_at_own_tsf c own ≡ some p) × (lo + t * 1_000 ≤ p) × (p ≤ hi + t * 1_000)
unfolding synced_ns_at_own_tsf
synced_within c bssid k anchor_own anchor_ap bs us lo hi own t v many ahead h ht reads =
    let (p, answer, low, high) =
      synced_ns_at_bounds c.udp_est (keep_last window us) lo hi t v.wall_window
        (length-keep_last us many) (keep_last-All (IsAhead lo hi) window us ahead) h ht in
    let at_ap = own_tsf_to_ap_tsf-anchor c anchor_own anchor_ap own v.anchor ∙ reads in
    (p, rw at_ap answer, low, high)

-- A board: its network, its client and the two clocks of its anchor at first, what it hears, and its
-- reading of the event.
pub record Board : Type 0 where
  pub bssid : List ℕ
  pub client : Client
  pub anchor_own : ℕ
  pub anchor_ap : ℕ
  pub heard : List Heard
  pub own_tsf : ℕ

-- The board starts with an anchor and no samples. It hears beacons of its network, for which its
-- filters are ready, and eight packets or more, in each of which the server is `lo` to `hi` ns ahead of
-- the access point's clock; the last anchor takes its reading of the event to `t` of that clock.
pub record IsSynced (lo hi t : ℕ) (b : Board) : Type 0 where
  pub idle : IsIdle b.bssid (n_beacons b.heard) b.client b.anchor_own b.anchor_ap [] []
  pub hears : IsHeard b.bssid b.anchor_own b.anchor_ap b.heard
  pub ahead : All (IsAhead lo hi) (walls b.heard)
  pub enough : 8 ≤ length (walls b.heard)
  pub reads :
      let (own, ap) = last_anchor b.anchor_own b.anchor_ap b.heard in
      shift_tsf own ap b.own_tsf ≡ some t

synced_board :
    (try_send : TrySend) (lo hi t : ℕ) (b : Board)
    → IsTrySend try_send
    → IsSynced lo hi t b
    → hi < 2 ^ 72
    → t < 2 ^ 64
    → (c : Client) × (p : ℕ) × (arrive_all try_send b.client (frames b.heard) ≡ ret c)
      × (synced_ns_at_own_tsf c b.own_tsf ≡ some p)
      × (lo + t * 1_000 ≤ p)
      × (p ≤ hi + t * 1_000)
synced_board try_send lo hi t b sends v h ht =
    let (c, runs, idle) =
      arrive_all-IsIdle try_send b.heard b.client b.bssid b.anchor_own b.anchor_ap [] [] sends
        v.idle v.hears in
    let last = last_anchor b.anchor_own b.anchor_ap b.heard in
    let (p, answer, low, high) =
      synced_within c b.bssid 0 last.0 last.1 _ (walls b.heard) lo hi b.own_tsf t idle v.enough
        v.ahead h ht v.reads in
    (c, p, runs, answer, low, high)

-- With a channel as documented: two boards, each with an anchor at first, hear any packets of the server, eight or more, and any
-- beacons of the access point, one frame at a time with its event consumed before the next, and as many
-- beacons as their filters are ready for. Afterwards each reads the same event by its own clock, and
-- its last anchor takes this reading to a time of the access point, at most `e` µs apart on the two
-- boards. If the server is `lo` to `hi` ns ahead of the access point in each packet, as its anchor of
-- that moment has it, then neither board panics, each answers with a server time, and the two are at
-- most `hi - lo` ns and `e` µs apart; each is `lo` to `hi` ns ahead of its access point time of the
-- event.
pub boards_agree :
    (try_send : TrySend) (lo hi ta tb e : ℕ) (a b : Board)
    → IsTrySend try_send
    → IsSynced lo hi ta a
    → IsSynced lo hi tb b
    → ta ≤ tb + e
    → tb ≤ ta + e
    → hi < 2 ^ 72
    → ta < 2 ^ 64
    → tb < 2 ^ 64
    → (c d : Client) × (p q : ℕ) × (arrive_all try_send a.client (frames a.heard) ≡ ret c)
      × (arrive_all try_send b.client (frames b.heard) ≡ ret d)
      × (synced_ns_at_own_tsf c a.own_tsf ≡ some p)
      × (synced_ns_at_own_tsf d b.own_tsf ≡ some q)
      × (p + lo ≤ q + hi + e * 1_000)
      × (q + lo ≤ p + hi + e * 1_000)
      × (lo + ta * 1_000 ≤ p)
      × (p ≤ hi + ta * 1_000)
      × (lo + tb * 1_000 ≤ q)
      × (q ≤ hi + tb * 1_000)
boards_agree try_send lo hi ta tb e a b sends va vb near_a near_b h ha hb =
    let (c, p, runs_a, answer_a, low_a, high_a) = synced_board try_send lo hi ta a sends va h ha in
    let (d, q, runs_b, answer_b, low_b, high_b) = synced_board try_send lo hi tb b sends vb h hb in
    (
      c,
      d,
      p,
      q,
      runs_a,
      runs_b,
      answer_a,
      answer_b,
      omega arith,
      omega arith,
      low_a,
      high_a,
      low_b,
      high_b,
    )
