-- ===== src/SkewMeter/Summary.antt =====
-- The statistics of a direction against the list of its differences.
use native.Mathlib.Nat.{mul-le-mul}
use esp_clock_sync.Prelude.{
  ℕ, suc, ◌-◌, ◌*◌, ◌^◌, ◌≤◌, ◌<◌, ◌≡◌, refl, ap, arith, List, [], ◌∷◌, ◌++◌, map, ltb,
  if◌then◌else◌, All, Bool-cases, inl, inr, length, length-append,
}
use esp_clock_sync.Prelude.Int.{
  ℤ, pos, negsuc, pos_part, neg_part, ◌+ℤ◌, ◌-ℤ◌, ◌*ℤ◌, quot, abs, int_laws, +ℤ_parts,
  quot_pos_parts,
}
use esp_clock_sync.Window.{keep_last}
use esp_clock_sync.SkewMeter.Stats.{
  DirStats, new_stats, recent_cap, push_recent, p99, sort_unstable,
}

-- A difference of less than 2^50 ns, some 13 days.
abbrev pub InRange : ℤ → Type 0
InRange d = (pos_part d < 2 ^ 50) × (neg_part d < 2 ^ 50)

-- In whole µs, rounded to zero.
abbrev pub in_us : ℤ → ℤ
in_us d = quot d (pos 1_000)

abbrev pub abs_us : ℤ → ℕ
abs_us d = abs (in_us d)

pub sum_us : List ℤ → ℤ
sum_us [] = pos 0
sum_us (d ∷ ds) = sum_us ds +ℤ in_us d

-- The sum of the squares.
pub squares_us : List ℤ → ℤ
squares_us [] = pos 0
squares_us (d ∷ ds) = squares_us ds +ℤ in_us d *ℤ in_us d

-- The mean of the squares less the square of the mean, both rounded to zero.
abbrev pub variance_us : List ℤ → ℤ
variance_us ds =
    let mean = quot (sum_us ds) (pos (length ds)) in
    quot (squares_us ds) (pos (length ds)) -ℤ mean *ℤ mean

-- The standard deviation: the root of the variance, or of 0 where rounding leaves it negative.
abbrev pub stddev_us : (ℕ → ℕ) → List ℤ → ℕ
stddev_us sqrt [] = 0
stddev_us sqrt (d ∷ ds) = sqrt (pos_part (variance_us (d ∷ ds)))

abbrev pub max_us : List ℤ → ℕ
max_us [] = 0
max_us (d ∷ ds) = if ltb (max_us ds) (abs_us d) then abs_us d else max_us ds

pub square_bounds :
    (a : ℤ) (m : ℕ) → abs a ≤ m → (pos_part (a *ℤ a) ≤ m * m) × (neg_part (a *ℤ a) ≡ 0)
unfolding ◌*ℤ◌
square_bounds (pos n) m h =
    let k : n ≤ m = omega arith in let p = mul-le-mul k k in (ground arith, ground arith)
square_bounds (negsuc n) m h =
    let k : suc n ≤ m = omega arith in let p = mul-le-mul k k in (ground arith, ground arith)

pub in_us_bounds :
    (d : ℤ) → InRange d → (pos_part (in_us d) < 2 ^ 41) × (neg_part (in_us d) < 2 ^ 41)
in_us_bounds d h = let q = quot_pos_parts d 1_000 in (omega arith, omega arith)

pub sum_us-snoc : (ds : List ℤ) (d : ℤ) → sum_us (ds ++ d ∷ []) ≡ sum_us ds +ℤ in_us d
unfolding sum_us
sum_us-snoc [] d = refl
sum_us-snoc (e ∷ ds) d = rw (sum_us-snoc ds d) (omega int_laws)

pub squares_us-snoc :
    (ds : List ℤ) (d : ℤ) → squares_us (ds ++ d ∷ []) ≡ squares_us ds +ℤ in_us d *ℤ in_us d
unfolding squares_us
squares_us-snoc [] d = refl
squares_us-snoc (e ∷ ds) d = rw (squares_us-snoc ds d) (omega int_laws)

pub stddev_us-snoc :
    (sqrt : ℕ → ℕ) (ds : List ℤ) (d : ℤ)
    → stddev_us sqrt (ds ++ d ∷ []) ≡ sqrt (pos_part (variance_us (ds ++ d ∷ [])))
stddev_us-snoc sqrt [] d = refl
stddev_us-snoc sqrt (e ∷ ds) d = refl

pub sum_us_bounds :
    (ds : List ℤ)
    → All InRange ds
    → (pos_part (sum_us ds) ≤ length ds * 2 ^ 41) × (neg_part (sum_us ds) ≤ length ds * 2 ^ 41)
unfolding sum_us
sum_us_bounds [] h = omega arith
sum_us_bounds (d ∷ ds) h =
    omega (arith, sum_us_bounds ds h.1, in_us_bounds d h.0, +ℤ_parts (sum_us ds) (in_us d))

pub max_us-snoc :
    (ds : List ℤ) (d : ℤ)
    → max_us (ds ++ d ∷ []) ≡ (if ltb (max_us ds) (abs_us d) then abs_us d else max_us ds)
max_us-snoc [] d = refl
max_us-snoc (e ∷ ds) d = let ih = max_us-snoc ds d in ground arith

pub map-snoc : (ds : List ℤ) (d : ℤ) → map abs_us (ds ++ d ∷ []) ≡ map abs_us ds ++ abs_us d ∷ []
map-snoc [] d = refl
map-snoc (e ∷ ds) d = ap (◌∷◌ (abs_us e)) (map-snoc ds d)

pub push_recent-keep_last :
    (q : List ℕ) (x : ℕ)
    → length q ≤ recent_cap
    → push_recent q x ≡ keep_last recent_cap (q ++ x ∷ [])
unfolding push_recent keep_last
push_recent-keep_last q x h =
    let len = length-append q (x ∷ []) in
    elim (Bool-cases (ltb recent_cap (length (q ++ x ∷ [])))) [
      | inl long ↦ let e : length (q ++ x ∷ []) - recent_cap ≡ 1 = ground arith in rw (long, e) refl
      | inr short ↦
          let e : length (q ++ x ∷ []) - recent_cap ≡ 0 = ground arith in rw (short, e) refl
    ]

-- The statistics are those of the differences `ds`, the oldest first.
pub record IsStats (sqrt : ℕ → ℕ) (s : DirStats) (ds : List ℤ) : Type 0 where
  pub n : s.n ≡ length ds
  pub sum : s.sum_us ≡ sum_us ds
  pub mean : s.mean_us ≡ quot (sum_us ds) (pos (length ds))
  pub max_abs : s.max_abs_us ≡ max_us ds
  pub recent : s.recent_abs_us ≡ keep_last recent_cap (map abs_us ds)
  pub percentile : s.p99_abs_us ≡ p99 (keep_last recent_cap (map abs_us ds))
  pub sum_sq : s.sum_sq_us ≡ squares_us ds
  pub stddev : s.stddev_us ≡ stddev_us sqrt ds
  pub squares : pos_part s.sum_sq_us ≤ length ds * 2 ^ 82
  pub no_negative : neg_part s.sum_sq_us ≡ 0

pub new_stats-IsStats : (sqrt : ℕ → ℕ) → IsStats sqrt new_stats []
unfolding sum_us squares_us keep_last p99 quot sort_unstable
new_stats-IsStats sqrt = record {
  n = refl;
  sum = refl;
  mean = refl;
  max_abs = refl;
  recent = refl;
  percentile = refl;
  sum_sq = refl;
  stddev = refl;
  squares = omega arith;
  no_negative = refl;
}
