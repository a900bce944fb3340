-- ===== src/Tracker/Tests.antt =====
-- The tracker on a constant, observed eight times, 100 ms apart.
use esp_clock_sync.Prelude.{
  ℕ, ◌*◌, ◌≤◌, ◌≡◌, refl, sym, ap, ◌∙◌, List, [], ◌∷◌, ◌++◌, some, arith, length, ret,
}
use esp_clock_sync.Prelude.Int.{pos, pos_part}
use esp_clock_sync.Window.{keep_last}
use esp_clock_sync.Tracker.{Tracker, Sample, window, new, predict}
use esp_clock_sync.Tracker.Constant.{IsConstant, IsSpread}
use esp_clock_sync.Tracker.Exact.{observe_all-predict_constant}
use esp_clock_sync.Tracker.History.{observe_all}

abbrev at_ms : ℕ → Sample
at_ms m = (pos (m * 1_000), pos 5_000)

abbrev earlier : List Sample
earlier = at_ms 0 ∷ at_ms 100 ∷ at_ms 200 ∷ at_ms 300 ∷ at_ms 400 ∷ at_ms 500 ∷ at_ms 600 ∷ []

earlier-IsSpread : IsSpread (keep_last window (earlier ++ at_ms 700 ∷ []))
unfolding keep_last
earlier-IsSpread x h = absurd (let apart = ap pos_part (h.0 ∙ sym h.1.0) in omega arith)

earlier-IsConstant : IsConstant (pos 5_000) (keep_last window (earlier ++ at_ms 700 ∷ []))
unfolding keep_last
earlier-IsConstant = (refl, (refl, (refl, (refl, (refl, (refl, (refl, (refl, tt))))))))

earlier_many : 8 ≤ length (keep_last window (earlier ++ at_ms 700 ∷ []))
unfolding keep_last
earlier_many = omega arith

observe_all-predict_constant_example :
    (t : Tracker) × (observe_all new (earlier ++ at_ms 700 ∷ []) ≡ ret t)
    × (predict t (pos 800_000) ≡ ret (some (pos 5_000)))
observe_all-predict_constant_example =
    observe_all-predict_constant earlier (at_ms 700) (pos 5_000) (pos 800_000) (omega arith)
      (omega arith) earlier_many earlier-IsConstant earlier-IsSpread (omega arith, omega arith)

-- Values that rise by 3 each time.
abbrev rising : List Sample
rising =
    (pos 0, pos 0)
    ∷ (pos 100, pos 3)
    ∷ (pos 200, pos 6)
    ∷ (pos 300, pos 9)
    ∷ (pos 400, pos 12)
    ∷ (pos 500, pos 15)
    ∷ (pos 600, pos 18)
    ∷ []
