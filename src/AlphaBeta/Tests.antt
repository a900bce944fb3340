-- ===== src/AlphaBeta/Tests.antt =====
-- The filter's theorems with the gains of the client.
use esp_clock_sync.Prelude.{◌*◌, ◌/◌, ◌^◌, ◌≡◌, refl, true, [], ◌∷◌, some, arith, ret}
use esp_clock_sync.Prelude.Int.{pos, negsuc, pos--ℤ-pos}
use esp_clock_sync.AlphaBeta.{AlphaBeta, new, observe, predict, extrapolate, max_innovation_q}
use esp_clock_sync.AlphaBeta.Steady.{observe_all, observe_all-predict}
use esp_clock_sync.AlphaBeta.Outlier.{IsWithin, observe-IsWithin}

observe_all-predict_example :
    (f : AlphaBeta) × (observe_all (new 16 2_048) (negsuc 41) (pos 100 ∷ pos 300 ∷ pos 200 ∷ [])
      ≡ ret f)
    × (predict f (pos 5_000) ≡ some (negsuc 41))
observe_all-predict_example =
    observe_all-predict 16 2_048 (pos 100) (pos 300 ∷ pos 200 ∷ []) (negsuc 41) (pos 5_000)
      (omega arith) (omega arith) (omega arith, omega arith)

abbrev tracking : AlphaBeta
tracking = record {
  initialized = true;
  last_x_us = pos 1_000;
  offset_q = pos (5_000 * 2 ^ 20);
  rate_q = pos 42_950;
  alpha = 16;
  beta = 2_048;
}

-- An observation that is off by a second.
observe-IsWithin_example :
    (f : AlphaBeta) × (observe tracking (pos 101_000) (pos 1_005_000) ≡ ret f)
    × IsWithin (max_innovation_q / 16) f.offset_q (extrapolate tracking (pos 100_000))
    × IsWithin (max_innovation_q * 2 ^ 12 / 100_000 / 2_048) f.rate_q (pos 42_950)
    × (f.last_x_us ≡ pos 101_000)
observe-IsWithin_example =
    observe-IsWithin tracking (pos 101_000) (pos 1_005_000) 100_000 refl (omega arith, omega arith)
      (omega arith, omega arith) (omega arith, omega arith) (pos--ℤ-pos 101_000 1_000 (omega arith))
      (omega arith) (omega arith) (omega arith)
