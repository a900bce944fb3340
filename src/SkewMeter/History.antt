-- ===== src/SkewMeter/History.antt =====
-- The history of a device: the sent edges of the last four windows.
use esp_clock_sync.Prelude.{
  ℕ, ◌-◌, ◌*◌, ◌^◌, ◌≤◌, ◌<◌, ◌≡◌, refl, ap, arith, List, [], ◌∷◌, ◌++◌, ltb, if◌then◌else◌, All,
  All-append, All-map, Bool-cases, inl, inr, ret,
}
use esp_clock_sync.Prelude.Words.{checked_u-ret}
use esp_clock_sync.SkewMeter.{Event, tx, rx, prune, push_tx}
use esp_clock_sync.SkewMeter.Nearest.{times}

-- Only sent edges, as the loop of `main` pushes them, in the order of their times.
abbrev pub IsAscending : List Event → Type 0
IsAscending [] = Unit
IsAscending (tx device mac seq t ∷ q) = All (λ u. t ≤ u) (times q) × IsAscending q
IsAscending (rx device mac t ∷ q) = ⊥

-- The edges at `cutoff` or later.
abbrev pub at_or_after : ℕ → List Event → List Event
at_or_after cutoff [] = []
at_or_after cutoff (tx device mac seq t ∷ q) =
    let rest = at_or_after cutoff q in if ltb t cutoff then rest else tx device mac seq t ∷ rest
at_or_after cutoff (rx device mac t ∷ q) = at_or_after cutoff q

at_or_after-All :
    (cutoff : ℕ) (q : List Event)
    → IsAscending q
    → All (λ u. cutoff ≤ u) (times q)
    → at_or_after cutoff q ≡ q
at_or_after-All cutoff [] h k = refl
at_or_after-All cutoff (tx device mac seq t ∷ q) h k =
    let ih = at_or_after-All cutoff q h.1 k.1 in ground (arith, ih)
at_or_after-All cutoff (rx device mac t ∷ q) h k = absurd h

pub prune-at_or_after :
    (cutoff : ℕ) (q : List Event) → IsAscending q → prune cutoff q ≡ at_or_after cutoff q
unfolding prune
prune-at_or_after cutoff [] h = refl
prune-at_or_after cutoff (tx device mac seq t ∷ q) h = elim (Bool-cases (ltb t cutoff)) [
  | inl old ↦ rw old (prune-at_or_after cutoff q h.1)
  | inr young ↦
      let rest =
        at_or_after-All cutoff q h.1
          (All-map _ (λ u. cutoff ≤ u) (times q) (λ u le. ground arith) h.0) in
      rw (young, rest) refl
]
prune-at_or_after cutoff (rx device mac t ∷ q) h = absurd h

pub times-snoc :
    (q : List Event) (device : ℕ) (mac : List ℕ) (seq t : ℕ)
    → times (q ++ tx device mac seq t ∷ []) ≡ times q ++ t ∷ []
times-snoc [] device mac seq t = refl
times-snoc (tx device' mac' seq' t' ∷ q) device mac seq t =
    ap (◌∷◌ t') (times-snoc q device mac seq t)
times-snoc (rx device' mac' t' ∷ q) device mac seq t = times-snoc q device mac seq t

pub IsAscending-snoc :
    (q : List Event) (device : ℕ) (mac : List ℕ) (seq t : ℕ)
    → IsAscending q
    → All (λ u. u ≤ t) (times q)
    → IsAscending (q ++ tx device mac seq t ∷ [])
IsAscending-snoc [] device mac seq t h k = (tt, tt)
IsAscending-snoc (tx device' mac' seq' t' ∷ q) device mac seq t h k = (
  rw (times-snoc q device mac seq t) (All-append (λ u. t' ≤ u) (times q) (t ∷ []) h.0 (k.0, tt)),
  IsAscending-snoc q device mac seq t h.1 k.1,
)
IsAscending-snoc (rx device' mac' t' ∷ q) device mac seq t h k = absurd h

pub IsAscending-prune : (cutoff : ℕ) (q : List Event) → IsAscending q → IsAscending (prune cutoff q)
unfolding prune
IsAscending-prune cutoff [] h = tt
IsAscending-prune cutoff (tx device mac seq t ∷ q) h = elim (Bool-cases (ltb t cutoff)) [
  | inl old ↦ rw old (IsAscending-prune cutoff q h.1)
  | inr young ↦ rw young h
]
IsAscending-prune cutoff (rx device mac t ∷ q) h = absurd h

-- An edge that is sent no earlier than those in the history leaves it in order, with exactly the
-- edges of the last four windows and the new one, and there is no panic for a window below 2^126.
pub push_tx-at_or_after :
    (window device : ℕ) (mac : List ℕ) (seq t : ℕ) (q : List Event)
    → window < 2 ^ 126
    → IsAscending q
    → All (λ u. u ≤ t) (times q)
    → (q' : List Event) × (push_tx window q (tx device mac seq t) t ≡ ret q')
      × (q' ≡ at_or_after (t - window * 4) (q ++ tx device mac seq t ∷ []))
      × IsAscending q'
unfolding push_tx
push_tx-at_or_after window device mac seq t q hw h k =
    let ordered = IsAscending-snoc q device mac seq t h k in
    (
      prune (t - window * 4) (q ++ tx device mac seq t ∷ []),
      rw (checked_u-ret 128 (window * 4) (omega arith)) refl,
      prune-at_or_after (t - window * 4) (q ++ tx device mac seq t ∷ []) ordered,
      IsAscending-prune (t - window * 4) (q ++ tx device mac seq t ∷ []) ordered,
    )
