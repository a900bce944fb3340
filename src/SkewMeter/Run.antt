-- ===== src/SkewMeter/Run.antt =====
-- The loop of `main` on the events of two boards, and the exit code.
use esp_clock_sync.Prelude.{
  bind_ret, ℕ, ◌-◌, ◌*◌, ◌^◌, ◌≤◌, ◌<◌, ◌≡◌, refl, sym, ◌∙◌, ◌↔◌, arith, List, [], ◌∷◌, ◌++◌,
  Option, none, some, length, All, All-append, Exec, ret,
}
use esp_clock_sync.Prelude.Int.{ℤ, parts_exclusive}
use esp_clock_sync.SkewMeter.{Event, tx, nearest}
use esp_clock_sync.SkewMeter.Stats.{DirStats, record_delta}
use esp_clock_sync.SkewMeter.Nearest.{times, IsNearest, nearest-IsNearest}
use esp_clock_sync.SkewMeter.History.{IsAscending, IsAscending-snoc, times-snoc}
use esp_clock_sync.SkewMeter.Summary.{InRange, abs_us, IsStats}
use esp_clock_sync.SkewMeter.Verdict.{record_all, record_all-from}
use esp_clock_sync.SkewMeter.Trace.{
  recent, IsGood, IsBelow, IsNearest-IsGood, All-at_or_after, newest,
}

-- The edges that a board has sent: in order, and with times in range.
pub record IsSent (sent : List Event) : Type 0 where
  pub order : IsAscending sent
  pub small : All (λ t. t < 2 ^ 126) (times sent)

pub IsSent-snoc :
    (sent : List Event) (device : ℕ) (mac : List ℕ) (seq t : ℕ)
    → IsSent sent
    → t < 2 ^ 126
    → All (λ u. u ≤ t) (times sent)
    → IsSent (sent ++ tx device mac seq t ∷ [])
IsSent-snoc sent device mac seq t v h k = record {
  order = IsAscending-snoc sent device mac seq t v.order k;
  small =
      rw (times-snoc sent device mac seq t)
        (All-append (λ u. u < 2 ^ 126) (times sent) (t ∷ []) v.small (h, tt));
}

-- The statistics of a direction are those of its differences, which are in range.
pub record IsRecorded (sqrt : ℕ → ℕ) (s : DirStats) (ds : List ℤ) : Type 0 where
  pub stats : IsStats sqrt s ds
  pub in_range : All InRange ds

-- The difference of the match, where there is one.
abbrev pub listed : Option ℤ → List ℤ
listed none = []
listed (some d) = d ∷ []

pub length-listed : (best : Option ℤ) → length (listed best) ≤ 1
length-listed none = omega arith
length-listed (some d) = omega arith

listed-InRange :
    (window r : ℕ) (ts : List ℕ) (best : Option ℤ)
    → window < 2 ^ 50
    → IsNearest window r ts best
    → All InRange (listed best)
listed-InRange window r ts none h v = tt
listed-InRange window r ts (some d) h (at_t, within, least) =
    let x = parts_exclusive d in ((omega arith, omega arith), tt)

IsBelow-listed :
    (limit : ℕ) (best : Option ℤ) → All (λ d. abs_us d ≤ limit) (listed best) ↔ IsBelow limit best
IsBelow-listed limit none = ((λ h. tt), (λ h. tt))
IsBelow-listed limit (some d) = ((λ h. h.0), (λ h. (h, tt)))

-- What a received edge adds to a direction.
abbrev pub record_best : (ℕ → ℕ) → DirStats → Option ℤ → Exec DirStats
record_best sqrt s none = ret s
record_best sqrt s (some d) = record_delta sqrt s d

record_best-record_all :
    (sqrt : ℕ → ℕ) (s : DirStats) (best : Option ℤ)
    → record_best sqrt s best ≡ record_all sqrt s (listed best)
unfolding record_all
record_best-record_all sqrt s none = refl
record_best-record_all sqrt s (some d) = sym (bind_ret (record_delta sqrt s d))

module _ (sqrt : ℕ → ℕ) (window limit : ℕ) (hw : window < 2 ^ 50) where
  -- A received edge against the edges of the other board: the loop over its history ends, its match
  -- is recorded, and it is below the limit exactly where the edge is good.
  pub match_edge :
      (sent : List Event) (s : DirStats) (ds : List ℤ) (r : ℕ)
      → IsSent sent
      → IsRecorded sqrt s ds
      → r < 2 ^ 126
      → length ds < 2 ^ 20
      → (best : Option ℤ) × (s' : DirStats) × (nearest window r none (recent window sent)
          ≡ ret best)
        × (record_best sqrt s best ≡ ret s')
        × IsRecorded sqrt s' (ds ++ listed best)
        × (All (λ d. abs_us d ≤ limit) (listed best)
            ↔ IsGood window limit r (times (recent window sent)))
  match_edge sent s ds r v w hr few =
      let (best, finds, near) =
        nearest-IsNearest window r (recent window sent) hr
          (All-at_or_after (λ t. t < 2 ^ 126) (newest sent - window * 4) sent v.small) in
      let range = listed-InRange window r (times (recent window sent)) best hw near in
      let short : length (listed best) ≤ 1 = length-listed best in
      let (s', records, stats) =
        record_all-from sqrt (listed best) s ds w.stats w.in_range range (omega arith) in
      let (down, up) = IsNearest-IsGood window limit r (times (recent window sent)) best near in
      let (list, unlist) = IsBelow-listed limit best in
      (
        best,
        s',
        finds,
        record_best-record_all sqrt s best ∙ records,
        record { stats = stats; in_range = All-append InRange ds (listed best) w.in_range range },
        ((λ h. down (list h)), (λ h. unlist (up h))),
      )
