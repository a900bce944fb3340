-- ===== src/Estimator/Means.antt =====
-- The mean of the offsets lies between any bounds of the offsets.
use esp_clock_sync.Prelude.{◌+◌, ◌*◌, ◌≤◌, ◌<◌, List, [], ◌∷◌, arith, length, All}
use esp_clock_sync.Prelude.Int.{ℤ, pos, pos_part, neg_part, ◌≤ℤ◌, quot, quot_ge, quot_le, +ℤ_parts}
use esp_clock_sync.Estimator.{Sample}
use esp_clock_sync.Estimator.Offsets.{offset_of, total}

-- The mean of the offsets of a window, rounded to zero.
abbrev pub mean_of : List Sample → ℤ
mean_of ss = quot (total ss) (pos (length ss))

total_ge :
    (lo : ℤ) (ss : List Sample)
    → All (λ s. lo ≤ℤ offset_of s) ss
    → pos_part lo * length ss + neg_part (total ss) ≤ pos_part (total ss) + neg_part lo * length ss
unfolding total
total_ge lo [] h = omega arith
total_ge lo (s ∷ ss) h =
    let ih = total_ge lo ss h.1 in
    let here = h.0 in omega (arith, +ℤ_parts (offset_of s) (total ss))

total_le :
    (hi : ℤ) (ss : List Sample)
    → All (λ s. offset_of s ≤ℤ hi) ss
    → pos_part (total ss) + neg_part hi * length ss ≤ pos_part hi * length ss + neg_part (total ss)
unfolding total
total_le hi [] h = omega arith
total_le hi (s ∷ ss) h =
    let ih = total_le hi ss h.1 in
    let here = h.0 in omega (arith, +ℤ_parts (offset_of s) (total ss))

pub mean_of-ge :
    (lo : ℤ) (ss : List Sample) → 0 < length ss → All (λ s. lo ≤ℤ offset_of s) ss → lo ≤ℤ mean_of ss
mean_of-ge lo ss k h = quot_ge lo (total ss) (length ss) k (total_ge lo ss h)

pub mean_of-le :
    (hi : ℤ) (ss : List Sample) → 0 < length ss → All (λ s. offset_of s ≤ℤ hi) ss → mean_of ss ≤ℤ hi
mean_of-le hi ss k h = quot_le hi (total ss) (length ss) k (total_le hi ss h)
