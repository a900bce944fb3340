-- ===== src/SkewMeter/Judge.antt =====
-- One event in the loop of `main`: what it adds to the histories and to the statistics.
use mathlib.Core.List.{append-nil}
use esp_clock_sync.Prelude.{
  ℕ, zero, suc, ◌^◌, ◌≤◌, ◌<◌, ◌≡◌, refl, ap, ◌∙◌, ◌↔◌, arith, List, [], ◌∷◌, ◌++◌, Option, none,
  some, length, All, ret,
}
use esp_clock_sync.Prelude.Int.{ℤ}
use esp_clock_sync.SkewMeter.{Event, tx, rx, Meter, nearest, push_tx, record_match, on_event}
use esp_clock_sync.SkewMeter.Stats.{DirStats}
use esp_clock_sync.SkewMeter.Summary.{abs_us}
use esp_clock_sync.SkewMeter.Trace.{recent, after0, after1, IsGoodEvent, IsEvent, push_tx-recent}
use esp_clock_sync.SkewMeter.Nearest.{times}
use esp_clock_sync.SkewMeter.Run.{
  IsSent, IsSent-snoc, IsRecorded, listed, length-listed, record_best, match_edge,
}

-- The meter after the boards have sent `sent0` and `sent1` and the differences `ds0` and `ds1` have
-- been found.
pub record Inv (sqrt : ℕ → ℕ) (window : ℕ) (m : Meter) (sent0 sent1 : List Event) (ds0 ds1 : List ℤ)
    : Type 0 where
  pub history0 : m.history0 ≡ recent window sent0
  pub history1 : m.history1 ≡ recent window sent1
  pub sends0 : IsSent sent0
  pub sends1 : IsSent sent1
  pub records0 : IsRecorded sqrt m.stats0 ds0
  pub records1 : IsRecorded sqrt m.stats1 ds1

record_match-best0 :
    (sqrt : ℕ → ℕ) (m : Meter) (best : Option ℤ) (s : DirStats)
    → record_best sqrt m.stats0 best ≡ ret s
    → record_match sqrt m 0 best ≡ ret (record m { stats0 = s })
unfolding record_match
record_match-best0 sqrt m none s h = ground arith
record_match-best0 sqrt m (some d) s h = rw h refl

record_match-best1 :
    (sqrt : ℕ → ℕ) (m : Meter) (best : Option ℤ) (s : DirStats)
    → record_best sqrt m.stats1 best ≡ ret s
    → record_match sqrt m 1 best ≡ ret (record m { stats1 = s })
unfolding record_match
record_match-best1 sqrt m none s h = ground arith
record_match-best1 sqrt m (some d) s h = rw h refl

-- The meter after an event, with the differences that the event adds to each direction: they are
-- below the limit exactly where the event is good.
pub record IsStep (sqrt : ℕ → ℕ) (window limit : ℕ) (m m' : Meter) (sent0 sent1 : List Event)
    (ev : Event) (ds0 ds1 new0 new1 : List ℤ) : Type 0 where
  pub runs : on_event sqrt window m ev ≡ ret m'
  pub inv : Inv sqrt window m' (after0 sent0 ev) (after1 sent1 ev) (ds0 ++ new0) (ds1 ++ new1)
  pub judged :
      (All (λ d. abs_us d ≤ limit) new0 × All (λ d. abs_us d ≤ limit) new1)
      ↔ IsGoodEvent window limit sent0 sent1 ev
  pub short0 : length new0 ≤ 1
  pub short1 : length new1 ≤ 1

module _ (sqrt : ℕ → ℕ) (window limit : ℕ) (hw : window < 2 ^ 50) where
  -- A board's push, with its history as it stands.
  push_tx-history :
      (q : List Event) (sent : List Event) (device : ℕ) (mac : List ℕ) (seq t : ℕ)
      → q ≡ recent window sent
      → IsSent sent
      → All (λ u. u ≤ t) (times sent)
      → push_tx window q (tx device mac seq t) t
        ≡ ret (recent window (sent ++ tx device mac seq t ∷ []))
  push_tx-history q sent device mac seq t e v after =
      ap (λ r. push_tx window r (tx device mac seq t) t) e
      ∙ push_tx-recent window device mac seq t sent (omega arith) v.order after

  pub on_event-Inv :
      (ev : Event) (m : Meter) (sent0 sent1 : List Event) (ds0 ds1 : List ℤ)
      → Inv sqrt window m sent0 sent1 ds0 ds1
      → IsEvent sent0 sent1 ev
      → length ds0 < 2 ^ 20
      → length ds1 < 2 ^ 20
      → (m' : Meter) × (new0 new1 : List ℤ) × IsStep sqrt window limit m m' sent0 sent1 ev ds0 ds1
          new0 new1
  unfolding on_event
  on_event-Inv (tx zero mac seq t) m sent0 sent1 ds0 ds1 v (ht, after) few0 few1 = (
    record m { history0 = recent window (sent0 ++ tx 0 mac seq t ∷ []) },
    [],
    [],
    record {
      runs = rw (push_tx-history m.history0 sent0 0 mac seq t v.history0 v.sends0 after) refl;
      inv = record {
        history0 = refl;
        history1 = v.history1;
        sends0 = IsSent-snoc sent0 0 mac seq t v.sends0 ht after;
        sends1 = v.sends1;
        records0 = rw append-nil v.records0;
        records1 = rw append-nil v.records1;
      };
      judged = ((λ h. tt), (λ h. (tt, tt)));
      short0 = omega arith;
      short1 = omega arith;
    },
  )
  on_event-Inv (tx (suc zero) mac seq t) m sent0 sent1 ds0 ds1 v (ht, after, one) few0 few1 = (
    record m { history1 = recent window (sent1 ++ tx 1 mac seq t ∷ []) },
    [],
    [],
    record {
      runs = rw (push_tx-history m.history1 sent1 1 mac seq t v.history1 v.sends1 after) refl;
      inv = record {
        history0 = v.history0;
        history1 = refl;
        sends0 = v.sends0;
        sends1 = IsSent-snoc sent1 1 mac seq t v.sends1 ht after;
        records0 = rw append-nil v.records0;
        records1 = rw append-nil v.records1;
      };
      judged = ((λ h. tt), (λ h. (tt, tt)));
      short0 = omega arith;
      short1 = omega arith;
    },
  )
  on_event-Inv (tx (suc (suc k)) mac seq t) m sent0 sent1 ds0 ds1 v (ht, after, one) few0 few1 =
      absurd (omega arith)
  on_event-Inv (rx zero mac r) m sent0 sent1 ds0 ds1 v (hr, two) few0 few1 =
      let (best, s, finds, records, recorded, good) =
        match_edge sqrt window limit hw sent1 m.stats1 ds1 r v.sends1 v.records1 hr few1 in
      (
        record m { stats1 = s },
        [],
        listed best,
        record {
          runs =
              rw
                (
                  ap (nearest window r none) v.history1 ∙ finds,
                  record_match-best1 sqrt m best s records,
                )
                refl;
          inv = record {
            history0 = v.history0;
            history1 = v.history1;
            sends0 = v.sends0;
            sends1 = v.sends1;
            records0 = rw append-nil v.records0;
            records1 = recorded;
          };
          judged = ((λ h. good.0 h.1), (λ h. (tt, good.1 h)));
          short0 = omega arith;
          short1 = length-listed best;
        },
      )
  on_event-Inv (rx (suc zero) mac r) m sent0 sent1 ds0 ds1 v (hr, two) few0 few1 =
      let (best, s, finds, records, recorded, good) =
        match_edge sqrt window limit hw sent0 m.stats0 ds0 r v.sends0 v.records0 hr few0 in
      (
        record m { stats0 = s },
        listed best,
        [],
        record {
          runs =
              rw
                (
                  ap (nearest window r none) v.history0 ∙ finds,
                  record_match-best0 sqrt m best s records,
                )
                refl;
          inv = record {
            history0 = v.history0;
            history1 = v.history1;
            sends0 = v.sends0;
            sends1 = v.sends1;
            records0 = recorded;
            records1 = rw append-nil v.records1;
          };
          judged = ((λ h. good.0 h.0), (λ h. (good.1 h, tt)));
          short0 = length-listed best;
          short1 = omega arith;
        },
      )
  on_event-Inv (rx (suc (suc k)) mac r) m sent0 sent1 ds0 ds1 v (hr, two) few0 few1 =
      absurd (omega arith)
