-- ===== src/SkewMeter/Nearest.antt =====
-- The match of a received edge: the sent edge nearest in time, if there is one within the window.
use mathlib.Core.List.{append_assoc, append-nil, Memᴰ}
use mathlib.Core.List.Memᴰ
use mathlib.Core.List.Memᴰ.{head}
use esp_clock_sync.Prelude.{
  ℕ, ◌^◌, ◌≤◌, ◌<◌, ◌≡◌, refl, arith, true, false, ◌&&◌, List, [], ◌∷◌, ◌++◌, Option, none, some,
  leb, if◌then◌else◌, All, All-append, All-map, Bool-cases, inl, inr, ret,
}
use esp_clock_sync.Prelude.Int.{ℤ, pos, ◌-ℤ◌, abs, -ℤ_parts}
use esp_clock_sync.Prelude.Words.{checked_i-ret, signed-small}
use esp_clock_sync.SkewMeter.{Event, tx, rx, is_nearer, nearest}

-- The times of the sent edges.
abbrev pub times : List Event → List ℕ
times [] = []
times (tx device mac seq synced_ns ∷ q) = synced_ns ∷ times q
times (rx device mac synced_ns ∷ q) = times q

-- How far the received edge is behind the sent one.
abbrev pub delta : ℕ → ℕ → ℤ
delta rx_sync t = pos rx_sync -ℤ pos t

-- The nearest of the times: its difference is within the window and no other's is nearer to zero;
-- or none, where all are out of the window.
abbrev pub IsNearest : ℕ → ℕ → List ℕ → Option ℤ → Type 0
IsNearest window rx_sync ts none = All (λ t. window < abs (delta rx_sync t)) ts
IsNearest window rx_sync ts (some d) =
    ((t : ℕ) × Memᴰ t ts × (d ≡ delta rx_sync t))
    × (abs d ≤ window)
    × All (λ t. abs d ≤ abs (delta rx_sync t)) ts

keeps :
    (window rx_sync t : ℕ) (ts : List ℕ) (best : Option ℤ)
    → IsNearest window rx_sync ts best
    → (leb (abs (delta rx_sync t)) window && is_nearer (delta rx_sync t) best) ≡ false
    → IsNearest window rx_sync (ts ++ t ∷ []) best
keeps window rx_sync t ts none h e =
    All-append (λ u. window < abs (delta rx_sync u)) ts (t ∷ []) h (ground arith, tt)
keeps window rx_sync t ts (some d) ((u, m, at_u), within, least) e = (
  (u, Memᴰ.append_left (t ∷ []) m, at_u),
  within,
  All-append (λ u. abs d ≤ abs (delta rx_sync u)) ts (t ∷ []) least (ground arith, tt),
)

takes :
    (window rx_sync t : ℕ) (ts : List ℕ) (best : Option ℤ)
    → IsNearest window rx_sync ts best
    → (leb (abs (delta rx_sync t)) window && is_nearer (delta rx_sync t) best) ≡ true
    → IsNearest window rx_sync (ts ++ t ∷ []) (some (delta rx_sync t))
takes window rx_sync t ts none h e = (
  (t, Memᴰ.append_right ts (head refl), refl),
  ground arith,
  All-append (λ u. abs (delta rx_sync t) ≤ abs (delta rx_sync u)) ts (t ∷ [])
      (All-map _ _ ts (λ u k. ground arith) h) (omega arith, tt),
)
takes window rx_sync t ts (some d) (at_d, within, least) e = (
  (t, Memᴰ.append_right ts (head refl), refl),
  ground arith,
  All-append (λ u. abs (delta rx_sync t) ≤ abs (delta rx_sync u)) ts (t ∷ [])
      (All-map _ _ ts (λ u k. ground arith) least) (omega arith, tt),
)

nearest-from :
    (window rx_sync : ℕ) (q : List Event) (ts : List ℕ) (best : Option ℤ)
    → rx_sync < 2 ^ 126
    → All (λ t. t < 2 ^ 126) (times q)
    → IsNearest window rx_sync ts best
    → (best' : Option ℤ) × (nearest window rx_sync best q ≡ ret best')
      × IsNearest window rx_sync (ts ++ times q) best'
unfolding nearest
nearest-from window rx_sync [] ts best hr h v = (best, refl, rw append-nil v)
nearest-from window rx_sync (rx device mac synced_ns ∷ q) ts best hr h v =
    nearest-from window rx_sync q ts best hr h v
nearest-from window rx_sync (tx device mac seq t ∷ q) ts best hr h v =
    let p = -ℤ_parts (pos rx_sync) (pos t) in
    let ht = h.0 in
    let test = leb (abs (delta rx_sync t)) window && is_nearer (delta rx_sync t) best in
    let (best', runs, final) =
      nearest-from window rx_sync q (ts ++ t ∷ []) (if test then some (delta rx_sync t) else best)
        hr h.1
        (elim (Bool-cases test) [
          | inl e ↦ rw e (takes window rx_sync t ts best v e)
          | inr e ↦ rw e (keeps window rx_sync t ts best v e)
        ]) in
    (
      best',
      rw
          (
            signed-small 128 rx_sync (omega arith),
            signed-small 128 t (omega arith),
            checked_i-ret 128 (delta rx_sync t) (omega arith, omega arith),
          )
          runs,
      rw append_assoc at final,
    )

-- For times below 2^126 the loop ends with no panic, at the difference to the sent edge that is
-- nearest in time where one is within the window, and at none where there is no such edge.
pub nearest-IsNearest :
    (window rx_sync : ℕ) (q : List Event)
    → rx_sync < 2 ^ 126
    → All (λ t. t < 2 ^ 126) (times q)
    → (best : Option ℤ) × (nearest window rx_sync none q ≡ ret best)
      × IsNearest window rx_sync (times q) best
nearest-IsNearest window rx_sync q hr h = nearest-from window rx_sync q [] none hr h tt
