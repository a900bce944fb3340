-- ===== src/Tracker/Least.antt =====
-- The line of the tracker is the least-squares line of its window.
use esp_clock_sync.Prelude.{
  ◌^◌, ◌≤◌, ◌<◌, ◌≡◌, refl, sym, ap, ap₂, ◌∙◌, ℕ, arith, List, [], ◌∷◌, ◌++◌, length, somes, All,
  length-append, ret,
}
use esp_clock_sync.Prelude.Int.{ℤ, pos, ◌+ℤ◌, ◌-ℤ◌, ◌*ℤ◌, quot, abs, int_laws, pos_zero_add}
use esp_clock_sync.Tracker.{Tracker, Sample, refit}
use esp_clock_sync.Tracker.Fit.{InRange, total_dx, total_y}
use esp_clock_sync.Tracker.Moments.{total_num, total_den}
use esp_clock_sync.Tracker.Line.{IsLine, IsRefit, slope_of, line_of}
use esp_clock_sync.Tracker.Refit.{refit-line_of}
use esp_clock_sync.Tracker.Constant.{IsSpread, total_den-wide}

-- The sum of `f` over the samples.
pub sum_of : (Sample → ℤ) → List Sample → ℤ
sum_of f [] = pos 0
sum_of f (s ∷ ss) = f s +ℤ sum_of f ss

sum_of-append :
    (f : Sample → ℤ) (xs ys : List Sample) → sum_of f (xs ++ ys) ≡ sum_of f xs +ℤ sum_of f ys
unfolding sum_of
sum_of-append f [] ys = omega int_laws
sum_of-append f (s ∷ xs) ys = rw (sum_of-append f xs ys) (omega int_laws)

-- Their order does not matter.
sum_of-swap : (f : Sample → ℤ) (xs ys : List Sample) → sum_of f (xs ++ ys) ≡ sum_of f (ys ++ xs)
sum_of-swap f xs ys = rw (sum_of-append f xs ys, sum_of-append f ys xs) (omega int_laws)

pub length-swap : (xs ys : List Sample) → length (xs ++ ys) ≡ length (ys ++ xs)
length-swap xs ys = omega (arith, length-append xs ys, length-append ys xs)

-- The means of the times, less `x0`, and of the values.
abbrev pub mean_dx_of : ℤ → List Sample → ℤ
mean_dx_of x0 xs = quot (sum_of (λ s. s.0 -ℤ x0) xs) (pos (length xs))

abbrev pub mean_y_of : List Sample → ℤ
mean_y_of xs = quot (sum_of (λ s. s.1) xs) (pos (length xs))

-- The sums of the products and of the squares of the distances from a centroid.
abbrev pub products : ℤ → ℤ → ℤ → List Sample → ℤ
products x0 mean_dx mean_y xs = sum_of (λ s. (s.0 -ℤ x0 -ℤ mean_dx) *ℤ (s.1 -ℤ mean_y)) xs

abbrev pub squares : ℤ → ℤ → List Sample → ℤ
squares x0 mean_dx xs = sum_of (λ s. (s.0 -ℤ x0 -ℤ mean_dx) *ℤ (s.0 -ℤ x0 -ℤ mean_dx)) xs

-- The line of `t` passes through the centroid of `xs`, whose times are counted from `x0`, and its slope
-- is the sum of the products, shifted up within 128 bits, over the sum of the squares, clamped.
pub record IsLeast (t : Tracker) (x0 : ℤ) (xs : List Sample) : Type 0 where
  pub mean_x : t.mean_x ≡ x0 +ℤ mean_dx_of x0 xs
  pub mean_y : t.mean_y ≡ mean_y_of xs
  pub slope :
      (d : ℕ) × (squares x0 (mean_dx_of x0 xs) xs ≡ pos d)
      × (t.slope_q32 ≡ slope_of (products x0 (mean_dx_of x0 xs) (mean_y_of xs) xs) d)

pub IsLeast-swap :
    (t : Tracker) (x0 : ℤ) (xs ys : List Sample) → IsLeast t x0 (xs ++ ys) → IsLeast t x0 (ys ++ xs)
IsLeast-swap t x0 xs ys v =
    let len = length-swap xs ys in
    let dx : mean_dx_of x0 (xs ++ ys) ≡ mean_dx_of x0 (ys ++ xs) =
      ap₂ (λ a k. quot a (pos k)) (sum_of-swap (λ s. s.0 -ℤ x0) xs ys) len in
    let y : mean_y_of (xs ++ ys) ≡ mean_y_of (ys ++ xs) =
      ap₂ (λ a k. quot a (pos k)) (sum_of-swap (λ s. s.1) xs ys) len in
    let num =
      ap₂ (λ a b. products x0 a b (xs ++ ys)) dx y
      ∙ sum_of-swap (λ s. (s.0 -ℤ x0 -ℤ mean_dx_of x0 (ys ++ xs)) *ℤ (s.1 -ℤ mean_y_of (ys ++ xs)))
          xs ys in
    let den =
      ap (λ a. squares x0 a (xs ++ ys)) dx
      ∙ sum_of-swap
          (λ s. (s.0 -ℤ x0 -ℤ mean_dx_of x0 (ys ++ xs)) *ℤ (s.0 -ℤ x0 -ℤ mean_dx_of x0 (ys ++ xs)))
          xs ys in
    let (d, at_d, slope) = v.slope in
    record {
      mean_x = v.mean_x ∙ ap (λ a. x0 +ℤ a) dx;
      mean_y = v.mean_y ∙ y;
      slope = (d, sym den ∙ at_d, slope ∙ ap (λ a. slope_of a d) num);
    }

total_dx-sum_of : (x0 : ℤ) (ss : List Sample) → total_dx x0 ss ≡ sum_of (λ s. s.0 -ℤ x0) ss
unfolding total_dx sum_of
total_dx-sum_of x0 [] = refl
total_dx-sum_of x0 (s ∷ ss) = ap (λ a. (s.0 -ℤ x0) +ℤ a) (total_dx-sum_of x0 ss)

total_y-sum_of : (ss : List Sample) → total_y ss ≡ sum_of (λ s. s.1) ss
unfolding total_y sum_of
total_y-sum_of [] = refl
total_y-sum_of (s ∷ ss) = ap (λ a. s.1 +ℤ a) (total_y-sum_of ss)

total_num-products :
    (x0 mx my : ℤ) (ss : List Sample) → total_num x0 mx my ss ≡ products x0 mx my ss
unfolding total_num sum_of
total_num-products x0 mx my [] = refl
total_num-products x0 mx my (s ∷ ss) =
    ap (λ a. (s.0 -ℤ x0 -ℤ mx) *ℤ (s.1 -ℤ my) +ℤ a) (total_num-products x0 mx my ss)

total_den-squares : (x0 mx : ℤ) (ss : List Sample) → total_den x0 mx ss ≡ squares x0 mx ss
unfolding total_den sum_of
total_den-squares x0 mx [] = refl
total_den-squares x0 mx (s ∷ ss) =
    ap (λ a. (s.0 -ℤ x0 -ℤ mx) *ℤ (s.0 -ℤ x0 -ℤ mx) +ℤ a) (total_den-squares x0 mx ss)

-- `refit` on eight samples or more, not all at one time, stores their line.
pub refit-IsLeast :
    (t : Tracker)
    → IsLine t
    → abs t.last_x < 2 ^ 56
    → All InRange (somes t.samples)
    → length (somes t.samples) ≤ 256
    → 8 ≤ length (somes t.samples)
    → IsSpread (somes t.samples)
    → (t' : Tracker) × (refit t ≡ ret t') × IsRefit t t' × IsLeast t' t.last_x (somes t.samples)
unfolding line_of
refit-IsLeast t v ha h few many spread =
    let ss = somes t.samples in
    let k = length (somes t.samples) in
    let mx = quot (total_dx t.last_x (somes t.samples)) (pos (length (somes t.samples))) in
    let my = quot (total_y (somes t.samples)) (pos (length (somes t.samples))) in
    let (d, runs, is, at_d) =
      refit-line_of t v ha h few many (total_den-wide t.last_x mx (somes t.samples) spread) in
    let dx : mx ≡ mean_dx_of t.last_x (somes t.samples) =
      ap (λ a. quot a (pos k)) (total_dx-sum_of t.last_x (somes t.samples)) in
    let y : my ≡ mean_y_of (somes t.samples) =
      ap (λ a. quot a (pos k)) (total_y-sum_of (somes t.samples)) in
    (
      line_of t mx my (pos 0 +ℤ total_num t.last_x mx my (somes t.samples)) d,
      runs,
      is,
      record {
        mean_x = ap (λ a. t.last_x +ℤ a) dx;
        mean_y = y;
        slope = (
          d,
          sym (ap (λ a. squares t.last_x a ss) dx)
              ∙ sym (total_den-squares t.last_x mx (somes t.samples))
              ∙ at_d,
          ap (λ a. slope_of a d)
              (pos_zero_add (total_num t.last_x mx my (somes t.samples))
                ∙ total_num-products t.last_x mx my (somes t.samples)
                ∙ ap₂ (λ a b. products t.last_x a b ss) dx y),
        );
      },
    )
