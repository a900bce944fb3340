-- ===== src/SkewMeter/Stats.antt =====
-- crates/skew-meter/src/main.rs, `DirStats`. The square root of an f64 is a parameter: from the
-- variance to the standard deviation, both as whole numbers.
use esp_clock_sync.Prelude.{
  ℕ, ◌+◌, ◌-◌, ◌*◌, ◌/◌, List, [], ◌∷◌, ◌++◌, ltb, leb, if◌then◌else◌, length, drop, get_elem?, min,
  unwrap_or, Exec, ret, ◌>>=◌,
}
use esp_clock_sync.Prelude.Int.{ℤ, pos, pos_part, ◌+ℤ◌, ◌-ℤ◌, ◌*ℤ◌, quot, abs}
use esp_clock_sync.Prelude.Words.{checked_u, checked_i, wrap_i, signed, div_i}

pub record DirStats : Type 0 where
  pub n : ℕ
  pub sum_us : ℤ
  pub sum_sq_us : ℤ
  pub max_abs_us : ℕ
  pub recent_abs_us : List ℕ
  pub p99_abs_us : ℕ
  pub mean_us : ℤ
  pub stddev_us : ℕ

abbrev pub new_stats : DirStats
new_stats = record {
  n = 0;
  sum_us = pos 0;
  sum_sq_us = pos 0;
  max_abs_us = 0;
  recent_abs_us = [];
  p99_abs_us = 0;
  mean_us = pos 0;
  stddev_us = 0;
}

-- `sort_unstable` on numbers, by insertion.
unfoldable pub insert_sorted : ℕ → List ℕ → List ℕ
insert_sorted x [] = x ∷ []
insert_sorted x (y ∷ ys) = let rest = insert_sorted x ys in if leb x y then x ∷ y ∷ ys else y ∷ rest

unfoldable pub sort_unstable : List ℕ → List ℕ
sort_unstable [] = []
sort_unstable (x ∷ xs) = insert_sorted x (sort_unstable xs)

abbrev pub recent_cap : ℕ
recent_cap = 1_024

-- `push_back`, and `pop_front` of a queue that has become too long.
unfoldable pub push_recent : List ℕ → ℕ → List ℕ
push_recent recent x = let q = recent ++ x ∷ [] in if ltb recent_cap (length q) then drop 1 q else q

-- The entry of the sorted queue at 99 hundredths. With at most 1024 entries the product in f64
-- rounds down to the quotient of the whole numbers.
unfoldable pub p99 : List ℕ → ℕ
p99 recent =
    let sorted = sort_unstable recent in
    let idx = min (length sorted * 99 / 100) (length sorted - 1) in
    unwrap_or (get_elem? sorted idx) 0

-- `record`, whose name is a keyword here.
unfoldable pub record_delta : (ℕ → ℕ) → DirStats → ℤ → Exec DirStats
record_delta sqrt s delta_ns = do
  let delta_us = wrap_i 64 (quot delta_ns (pos 1_000))
  n ← checked_u 64 (s.n + 1)
  sum_us ← checked_i 64 (s.sum_us +ℤ delta_us)
  square ← checked_i 128 (delta_us *ℤ delta_us)
  sum_sq_us ← checked_i 128 (s.sum_sq_us +ℤ square)
  let abs_us = abs delta_us
  let recent = push_recent s.recent_abs_us abs_us
  mean_us ← div_i 64 sum_us (signed 64 n)
  mean_sq ← div_i 128 sum_sq_us (pos n)
  sq_mean ← checked_i 128 (mean_us *ℤ mean_us)
  var ← checked_i 128 (mean_sq -ℤ sq_mean)
  ret (record {
    n = n;
    sum_us = sum_us;
    sum_sq_us = sum_sq_us;
    max_abs_us = if ltb s.max_abs_us abs_us then abs_us else s.max_abs_us;
    recent_abs_us = recent;
    p99_abs_us = p99 recent;
    mean_us = mean_us;
    stddev_us = sqrt (pos_part var);
  })
