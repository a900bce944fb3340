-- ===== src/SkewMeter/Trace.antt =====
-- What the two boards send and receive, as the skew meter is meant to judge it: all sent edges are
-- kept, and a received edge is judged by those of the last four windows of the other board.
use mathlib.Core.List.{Memᴰ}
use native.Mathlib.Nat.{le_trans}
use esp_clock_sync.Prelude.{
  ℕ, zero, suc, ◌-◌, ◌*◌, ◌^◌, ◌≤◌, ◌<◌, ◌≡◌, refl, sym, ap, ◌∙◌, ◌⊎◌, ◌↔◌, inl, inr, arith, List,
  [], ◌∷◌, ◌++◌, Option, none, some, ltb, if◌then◌else◌, All, All-mem, Bool-cases, ret,
}
use mathlib.Core.Path.{subst}
use esp_clock_sync.Prelude.Int.{ℤ, abs, quot_pos_parts, parts_exclusive}
use esp_clock_sync.SkewMeter.{Event, tx, rx, push_tx}
use esp_clock_sync.SkewMeter.Nearest.{times, delta, IsNearest}
use esp_clock_sync.SkewMeter.Summary.{abs_us}
use esp_clock_sync.SkewMeter.History.{
  IsAscending, at_or_after, prune-at_or_after, IsAscending-prune, push_tx-at_or_after,
}

abbrev pub max : ℕ → ℕ → ℕ
max a b = if ltb a b then b else a

-- The greatest time among the edges.
abbrev pub newest : List Event → ℕ
newest [] = 0
newest (tx device mac seq t ∷ q) = max t (newest q)
newest (rx device mac t ∷ q) = newest q

-- Of all edges that a board has sent, those of the last four windows.
abbrev pub recent : ℕ → List Event → List Event
recent window sent = at_or_after (newest sent - window * 4) sent

-- The judgement of a received edge: no sent edge is within the window, or one that is within it is
-- within the limit too, in whole µs.
abbrev pub IsGood : ℕ → ℕ → ℕ → List ℕ → Type 0
IsGood window limit r ts =
    All (λ t. window < abs (delta r t)) ts
    ⊎ ((t : ℕ) × Memᴰ t ts × (abs (delta r t) ≤ window) × (abs_us (delta r t) ≤ limit))

-- The edges of each board after an event.
abbrev pub after0 : List Event → Event → List Event
after0 sent0 (tx zero mac seq t) = sent0 ++ tx zero mac seq t ∷ []
after0 sent0 (tx (suc k) mac seq t) = sent0
after0 sent0 (rx device mac r) = sent0

abbrev pub after1 : List Event → Event → List Event
after1 sent1 (tx zero mac seq t) = sent1
after1 sent1 (tx (suc k) mac seq t) = sent1 ++ tx (suc k) mac seq t ∷ []
after1 sent1 (rx device mac r) = sent1

-- An event is good where it is no received edge, or one that is good by the other board's edges.
abbrev pub IsGoodEvent : ℕ → ℕ → List Event → List Event → Event → Type 0
IsGoodEvent window limit sent0 sent1 (tx device mac seq t) = Unit
IsGoodEvent window limit sent0 sent1 (rx zero mac r) =
    IsGood window limit r (times (recent window sent1))
IsGoodEvent window limit sent0 sent1 (rx (suc k) mac r) =
    IsGood window limit r (times (recent window sent0))

-- All events of a sequence are good, after the edges that have been sent at first.
abbrev pub IsClean : ℕ → ℕ → List Event → List Event → List Event → Type 0
IsClean window limit sent0 sent1 [] = Unit
IsClean window limit sent0 sent1 (ev ∷ evs) =
    IsGoodEvent window limit sent0 sent1 ev
    × IsClean window limit (after0 sent0 ev) (after1 sent1 ev) evs

-- Two devices, times below 2^126 ns, and each board's edges in the order of their times.
abbrev pub IsEvent : List Event → List Event → Event → Type 0
IsEvent sent0 sent1 (tx zero mac seq t) = (t < 2 ^ 126) × All (λ u. u ≤ t) (times sent0)
IsEvent sent0 sent1 (tx (suc k) mac seq t) =
    (t < 2 ^ 126) × All (λ u. u ≤ t) (times sent1) × (k ≡ 0)
IsEvent sent0 sent1 (rx device mac r) = (r < 2 ^ 126) × (device ≤ 1)

abbrev pub IsTrace : List Event → List Event → List Event → Type 0
IsTrace sent0 sent1 [] = Unit
IsTrace sent0 sent1 (ev ∷ evs) =
    IsEvent sent0 sent1 ev × IsTrace (after0 sent0 ev) (after1 sent1 ev) evs

-- What the nearest edge's difference has to be.
abbrev pub IsBelow : ℕ → Option ℤ → Type 0
IsBelow limit none = Unit
IsBelow limit (some d) = abs_us d ≤ limit

abs_us_mono : (a b : ℤ) → abs a ≤ abs b → abs_us a ≤ abs_us b
abs_us_mono a b h =
    let p = quot_pos_parts a 1_000 in
    let q = quot_pos_parts b 1_000 in
    let x = parts_exclusive a in let y = parts_exclusive b in omega arith

-- The nearest edge decides the judgement.
pub IsNearest-IsGood :
    (window limit r : ℕ) (ts : List ℕ) (best : Option ℤ)
    → IsNearest window r ts best
    → IsBelow limit best ↔ IsGood window limit r ts
IsNearest-IsGood window limit r ts none far = ((λ h. inl far), (λ h. tt))
IsNearest-IsGood window limit r ts (some d) ((t, m, at_d), within, least) = (
  (λ h. inr (t, m, rw at_d at within, rw at_d at h)),
  (λ h. elim h [
    | inl far ↦
        let out = All-mem (λ u. window < abs (delta r u)) t ts far m in
        absurd (let e = ap abs at_d in omega arith)
    | inr (u, mu, near, good) ↦
        let le = All-mem (λ v. abs d ≤ abs (delta r v)) u ts least mu in
        le_trans (abs_us_mono d (delta r u) le) good
  ]),
)

newest-snoc :
    (q : List Event) (device : ℕ) (mac : List ℕ) (seq t : ℕ)
    → All (λ u. u ≤ t) (times q)
    → newest (q ++ tx device mac seq t ∷ []) ≡ t
newest-snoc [] device mac seq t h = ground arith
newest-snoc (tx d m s u ∷ q) device mac seq t h =
    let ih = newest-snoc q device mac seq t h.1 in let le = h.0 in ground (arith, ih)
newest-snoc (rx d m u ∷ q) device mac seq t h = newest-snoc q device mac seq t h

newest_le : (q : List Event) (t : ℕ) → All (λ u. u ≤ t) (times q) → newest q ≤ t
newest_le [] t h = omega arith
newest_le (tx d m s u ∷ q) t h = let ih = newest_le q t h.1 in let le = h.0 in ground (arith, ih)
newest_le (rx d m u ∷ q) t h = newest_le q t h

at_or_after_again :
    (early late : ℕ) (q r : List Event)
    → early ≤ late
    → at_or_after late (at_or_after early q ++ r) ≡ at_or_after late (q ++ r)
at_or_after_again early late [] r h = refl
at_or_after_again early late (tx d m s u ∷ q) r h =
    let ih = at_or_after_again early late q r h in ground (arith, ih)
at_or_after_again early late (rx d m u ∷ q) r h = at_or_after_again early late q r h

pub All-at_or_after :
    (P : ℕ → Type 0) (cutoff : ℕ) (q : List Event)
    → All P (times q)
    → All P (times (at_or_after cutoff q))
All-at_or_after P cutoff [] h = tt
All-at_or_after P cutoff (tx d m s u ∷ q) h = elim (Bool-cases (ltb u cutoff)) [
  | inl old ↦ rw old (All-at_or_after P cutoff q h.1)
  | inr young ↦ rw young (h.0, All-at_or_after P cutoff q h.1)
]
All-at_or_after P cutoff (rx d m u ∷ q) h = All-at_or_after P cutoff q h

-- The history of a board follows the recent ones of all its edges.
pub push_tx-recent :
    (window device : ℕ) (mac : List ℕ) (seq t : ℕ) (sent : List Event)
    → window < 2 ^ 126
    → IsAscending sent
    → All (λ u. u ≤ t) (times sent)
    → push_tx window (recent window sent) (tx device mac seq t) t
      ≡ ret (recent window (sent ++ tx device mac seq t ∷ []))
push_tx-recent window device mac seq t sent hw h k =
    let cutoff = newest sent - window * 4 in
    let ordered : IsAscending (recent window sent) =
      subst IsAscending (prune-at_or_after (newest sent - window * 4) sent h)
        (IsAscending-prune (newest sent - window * 4) sent h) in
    let (q', runs, is, ascends) =
      push_tx-at_or_after window device mac seq t (recent window sent) hw ordered
        (All-at_or_after (λ u. u ≤ t) (newest sent - window * 4) sent k) in
    let le = newest_le sent t k in
    runs
    ∙ ap ret (
        is
        ∙ at_or_after_again (newest sent - window * 4) (t - window * 4) sent
            (tx device mac seq t ∷ []) (omega arith)
        ∙ ap (λ n. at_or_after (n - window * 4) (sent ++ tx device mac seq t ∷ []))
            (sym (newest-snoc sent device mac seq t k)))
