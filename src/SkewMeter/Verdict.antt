-- ===== src/SkewMeter/Verdict.antt =====
-- Recording keeps the statistics of a direction true to its differences, and the verdict on them.
use mathlib.Core.List.{append_assoc, append-nil}
use esp_clock_sync.Prelude.{
  ℕ, ◌+◌, ◌-◌, ◌*◌, ◌^◌, ◌≤◌, ◌<◌, ◌≡◌, ◌↔◌, refl, sym, ap, ap₂, ◌∙◌, arith, false, List, [], ◌∷◌,
  ◌++◌, map, ltb, All, All-append, length, length-append, length-drop, Exec, ret, ◌>>=◌,
}
use esp_clock_sync.Prelude.Int.{
  ℤ, pos, pos_part, neg_part, ◌+ℤ◌, ◌-ℤ◌, ◌*ℤ◌, quot, +ℤ_parts, -ℤ_parts, quot_pos_le,
  parts_exclusive,
}
use esp_clock_sync.Prelude.Words.{
  checked_u-ret, checked_i-ret, signed-small, wrap_i-fits, div_i-ret,
}
use esp_clock_sync.Window.{keep_last}
use esp_clock_sync.Window.Push.{keep_last-snoc}
use esp_clock_sync.SkewMeter.{is_over}
use esp_clock_sync.SkewMeter.Stats.{DirStats, new_stats, recent_cap, push_recent, p99, record_delta}
use esp_clock_sync.SkewMeter.Summary.{
  InRange, in_us, abs_us, sum_us, max_us, square_bounds, in_us_bounds, sum_us-snoc, sum_us_bounds,
  squares_us-snoc, stddev_us-snoc, max_us-snoc, map-snoc, push_recent-keep_last, IsStats,
  new_stats-IsStats,
}

length-keep_last : (xs : List ℕ) → length (keep_last recent_cap xs) ≤ recent_cap
unfolding keep_last
length-keep_last xs = omega (arith, length-drop (length xs - recent_cap) xs)

module _ (sqrt : ℕ → ℕ) (s : DirStats) (ds : List ℤ) (d : ℤ) (v : IsStats sqrt s ds)
    (ranges : All InRange ds) (range : InRange d) (few : length ds < 2 ^ 20) where
  sum' : ℤ
  sum' = sum_us ds +ℤ in_us d

  mean' : ℤ
  mean' = quot sum' (pos (length ds + 1))

  sum_sq' : ℤ
  sum_sq' = s.sum_sq_us +ℤ in_us d *ℤ in_us d

  recent' : List ℕ
  recent' = keep_last recent_cap (map abs_us (ds ++ d ∷ []))

  recorded : DirStats
  recorded = record {
    n = length ds + 1;
    sum_us = sum';
    sum_sq_us = sum_sq';
    max_abs_us = max_us (ds ++ d ∷ []);
    recent_abs_us = recent';
    p99_abs_us = p99 recent';
    mean_us = mean';
    stddev_us = sqrt (pos_part (quot sum_sq' (pos (length ds + 1)) -ℤ mean' *ℤ mean'));
  }

  sum_bounds : (pos_part sum' < 2 ^ 62) × (neg_part sum' < 2 ^ 62)
  unfolding sum'
  sum_bounds =
      let b = sum_us_bounds ds ranges in
      let c = in_us_bounds d range in omega (arith, +ℤ_parts (sum_us ds) (in_us d))

  square_small : (pos_part (in_us d *ℤ in_us d) ≤ 2 ^ 82) × (neg_part (in_us d *ℤ in_us d) ≡ 0)
  square_small =
      let c = in_us_bounds d range in
      let x = parts_exclusive (in_us d) in square_bounds (in_us d) (2 ^ 41) (omega arith)

  sum_sq_bounds : (pos_part sum_sq' ≤ (length ds + 1) * 2 ^ 82) × (neg_part sum_sq' ≡ 0)
  unfolding sum_sq'
  sum_sq_bounds =
      let q = square_small in
      let a = v.squares in
      let b = v.no_negative in
      let p = +ℤ_parts s.sum_sq_us (in_us d *ℤ in_us d) in (omega arith, omega arith)

  mean_square : (pos_part (mean' *ℤ mean') ≤ 2 ^ 124) × (neg_part (mean' *ℤ mean') ≡ 0)
  unfolding mean'
  mean_square =
      let b = sum_bounds in
      let q = quot_pos_le sum' (length ds + 1) in
      let x = parts_exclusive (quot sum' (pos (length ds + 1))) in
      square_bounds mean' (2 ^ 62) (omega arith)

  recent_step : push_recent s.recent_abs_us (abs_us d) ≡ recent'
  unfolding recent'
  recent_step =
      ap (λ q. push_recent q (abs_us d)) v.recent
      ∙ push_recent-keep_last (keep_last recent_cap (map abs_us ds)) (abs_us d)
          (length-keep_last (map abs_us ds))
      ∙ keep_last-snoc recent_cap (map abs_us ds) (abs_us d) (omega arith)
      ∙ ap (keep_last recent_cap) (sym (map-snoc ds d))

  record_delta-ret : record_delta sqrt s d ≡ ret recorded
  unfolding record_delta recorded sum' sum_sq' mean'
  record_delta-ret =
      let c = in_us_bounds d range in
      let b = sum_bounds in
      let q = square_small in
      let sq = sum_sq_bounds in
      let ms = mean_square in
      let x = quot_pos_le sum' (length ds + 1) in
      let y = quot_pos_le sum_sq' (length ds + 1) in
      let z = -ℤ_parts (quot sum_sq' (pos (length ds + 1))) (mean' *ℤ mean') in
      rw
        (
          wrap_i-fits 64 (in_us d) (omega arith) (omega arith, omega arith),
          recent_step,
          v.n,
          v.sum,
          checked_u-ret 64 (length ds + 1) (omega arith),
          checked_i-ret 64 (sum_us ds +ℤ in_us d) (omega arith, omega arith),
          checked_i-ret 128 (in_us d *ℤ in_us d) (omega arith, omega arith),
          checked_i-ret 128 (s.sum_sq_us +ℤ in_us d *ℤ in_us d) (omega arith, omega arith),
          signed-small 64 (length ds + 1) (omega arith),
          div_i-ret 64 (sum_us ds +ℤ in_us d) (length ds + 1) (omega arith)
              (omega arith, omega arith),
          div_i-ret 128 (s.sum_sq_us +ℤ in_us d *ℤ in_us d) (length ds + 1) (omega arith)
              (omega arith, omega arith),
          checked_i-ret 128 (mean' *ℤ mean') (omega arith, omega arith),
          checked_i-ret 128 (quot sum_sq' (pos (length ds + 1)) -ℤ mean' *ℤ mean')
              (omega arith, omega arith),
          v.max_abs,
          max_us-snoc ds d,
        )
        refl

  IsStats-recorded : IsStats sqrt recorded (ds ++ d ∷ [])
  unfolding recorded sum' mean' recent' sum_sq'
  IsStats-recorded =
      let len = length-append ds (d ∷ []) in
      let sq = sum_sq_bounds in
      record {
        n = omega arith;
        sum = sym (sum_us-snoc ds d);
        mean = ap₂ (λ a k. quot a (pos k)) (sym (sum_us-snoc ds d)) (omega arith);
        max_abs = refl;
        recent = refl;
        percentile = refl;
        sum_sq = ap (λ a. a +ℤ in_us d *ℤ in_us d) v.sum_sq ∙ sym (squares_us-snoc ds d);
        stddev =
            rw (stddev_us-snoc sqrt ds d, sum_us-snoc ds d, squares_us-snoc ds d, v.sum_sq, len)
              refl;
        squares = omega arith;
        no_negative = sq.1;
      }

-- The differences of a list, recorded one after the other.
unfoldable pub record_all : (ℕ → ℕ) → DirStats → List ℤ → Exec DirStats
record_all sqrt s [] = ret s
record_all sqrt s (d ∷ ds) = record_delta sqrt s d >>= λ s'. record_all sqrt s' ds

pub record_all-from :
    (sqrt : ℕ → ℕ) (more : List ℤ) (s : DirStats) (ds : List ℤ)
    → IsStats sqrt s ds
    → All InRange ds
    → All InRange more
    → length ds + length more ≤ 2 ^ 20
    → (s' : DirStats) × (record_all sqrt s more ≡ ret s') × IsStats sqrt s' (ds ++ more)
unfolding record_all
record_all-from sqrt [] s ds v h k few = (s, refl, rw append-nil v)
record_all-from sqrt (d ∷ more) s ds v h k few =
    let few' : length ds < 2 ^ 20 = omega arith in
    let (s', runs, final) =
      record_all-from sqrt more (recorded sqrt s ds d v h k.0 few') (ds ++ d ∷ [])
        (IsStats-recorded sqrt s ds d v h k.0 few') (All-append InRange ds (d ∷ []) h (k.0, tt)) k.1
        (omega (arith, length-append ds (d ∷ []))) in
    (s', rw (record_delta-ret sqrt s ds d v h k.0 few') runs, rw append_assoc at final)

max_us-is_over : (limit : ℕ) (ds : List ℤ) → (max_us ds ≤ limit) ↔ All (λ d. abs_us d ≤ limit) ds
max_us-is_over limit [] = ((λ h. tt), (λ h. omega arith))
max_us-is_over limit (d ∷ ds) =
    let ih = max_us-is_over limit ds in
    ((λ h. (ground arith, ih.0 (ground arith))), (λ h. max_us_cons limit d ds h.0 (ih.1 h.1)))
  where
    max_us_cons :
        (limit : ℕ) (d : ℤ) (ds : List ℤ)
        → abs_us d ≤ limit
        → max_us ds ≤ limit
        → max_us (d ∷ ds) ≤ limit
    max_us_cons limit d ds p q = ground arith

is_over-max_us :
    (limit : ℕ) (s : DirStats) (ds : List ℤ)
    → s.n ≡ length ds
    → s.max_abs_us ≡ max_us ds
    → is_over limit s ≡ ltb limit (max_us ds)
is_over-max_us limit s [] e m = ground arith
is_over-max_us limit s (d ∷ ds) e m = ground arith

pub verdict :
    (sqrt : ℕ → ℕ) (limit : ℕ) (s : DirStats) (ds : List ℤ)
    → IsStats sqrt s ds
    → (is_over limit s ≡ false) ↔ All (λ d. abs_us d ≤ limit) ds
verdict sqrt limit s ds v =
    let e = is_over-max_us limit s ds v.n v.max_abs in
    let (below, max) = max_us-is_over limit ds in
    ((λ h. below (ground arith)), (λ h. verdict_false limit s (max_us ds) e (max h)))
  where
    verdict_false :
        (limit : ℕ) (s : DirStats) (m : ℕ)
        → is_over limit s ≡ ltb limit m
        → m ≤ limit
        → is_over limit s ≡ false
    verdict_false limit s m e le = e ∙ ground arith

-- At most 2^20 differences in range, recorded in a new direction, do not panic, whatever the square
-- root is. In whole µs, the statistics are those of the list: the count, the sum, the sum of the
-- squares, the mean, the standard deviation as the root of the variance, the greatest absolute value,
-- and the newest 1024 absolute values with their percentile. The direction is over the limit exactly
-- if one of the differences is.
pub record_all-IsStats :
    (sqrt : ℕ → ℕ) (limit : ℕ) (ds : List ℤ)
    → All InRange ds
    → length ds ≤ 2 ^ 20
    → (s : DirStats) × (record_all sqrt new_stats ds ≡ ret s)
      × IsStats sqrt s ds
      × ((is_over limit s ≡ false) ↔ All (λ d. abs_us d ≤ limit) ds)
record_all-IsStats sqrt limit ds h few =
    let (s, runs, v) =
      record_all-from sqrt ds new_stats [] (new_stats-IsStats sqrt) tt h (omega arith) in
    (s, runs, v, verdict sqrt limit s ds v)
