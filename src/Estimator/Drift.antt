-- ===== src/Estimator/Drift.antt =====
-- The second loop of `refit`, and the two-point drift.
use native.Mathlib.Nat.{mul-div_cancel}
use esp_clock_sync.Prelude.{
  ◌+◌, ◌-◌, ◌*◌, ◌/◌, ◌∙◌, ◌≤◌, ◌<◌, ◌≡◌, refl, List, [], ◌∷◌, some, true, false, inl, inr, arith,
  ltb, if◌then◌else◌, Bool-cases, tests, ltb→lt, ap, All, ret, Bool,
}
use esp_clock_sync.Prelude.Int.{
  ℤ, pos, negsuc, pos_part, neg_part, ◌-ℤ◌, ◌*ℤ◌, ◌≤ℤ◌, quot, clamp, -ℤ_parts, *ℤ_pos_parts,
  parts_exclusive, quot_pos_le, clamp_bounds, clamp_inside, int_laws, pos-*ℤ-pos, quot-pos, -ℤ_self,
}
use esp_clock_sync.Prelude.Words.{
  checked_i-ret, checked_u-ret, FitsI, signed-small, saturate_i-fits, div_i-ret, wrap_i-fits,
}
use esp_clock_sync.Estimator.{Sample, extremes, slope_drift, two_point_drift}
use esp_clock_sync.Estimator.Offsets.{InRange, offset_of}

-- The loop returns two of the samples, and no sample is older than the first or newer than the
-- second.
pub record AreExtremes (ss : List Sample) (o n : Sample) : Type 0 where
  pub oldest : All (λ s. o.local_us ≤ s.local_us) ss
  pub newest : All (λ s. s.local_us ≤ n.local_us) ss

pub extremes-some :
    (P : Sample → Type 0) (ss : List Sample) (o n : Sample)
    → All P ss
    → P o
    → P n
    → (o' : Sample) × (n' : Sample) × (extremes ss (some o) (some n) ≡ ret (some o', some n'))
      × P o'
      × P n'
      × (o'.local_us ≤ o.local_us)
      × (n.local_us ≤ n'.local_us)
      × AreExtremes ss o' n'
unfolding extremes
extremes-some P [] o n h po pn =
    (o, n, refl, po, pn, omega arith, omega arith, record { oldest = tt; newest = tt })
extremes-some P (s ∷ ss) o n h po pn =
    let (o', n', e, po', pn', lo, hi, ext) =
      extremes-some P ss (if ltb s.local_us o.local_us then s else o)
        (if ltb n.local_us s.local_us then s else n) h.1 (pick (ltb s.local_us o.local_us) h.0 po)
        (pick (ltb n.local_us s.local_us) h.0 pn) in
    (
      o',
      n',
      e,
      po',
      pn',
      ground arith,
      ground arith,
      record { oldest = (ground arith, ext.oldest); newest = (ground arith, ext.newest) },
    )
  where
    pick : (b : Bool) {x y : Sample} → P x → P y → P (if b then x else y)
    pick true px py = px
    pick false px py = py

-- The drift in parts per billion from `o` to `n`, at most one part in a thousand either way.
pub drift_of : Sample → Sample → ℤ
drift_of o n = clamp (negsuc 999_999) (pos 1_000_000) (
    quot ((pos n.server_ns -ℤ pos o.server_ns) *ℤ pos 1_000_000) (pos (n.local_us - o.local_us))
    -ℤ pos 1_000_000_000)

pub drift_of_bounds :
    (o n : Sample) → (negsuc 999_999 ≤ℤ drift_of o n) × (drift_of o n ≤ℤ pos 1_000_000)
unfolding drift_of
drift_of_bounds o n = clamp_bounds (negsuc 999_999) (pos 1_000_000) _ (omega arith)

drift_of_fits : (o n : Sample) → FitsI 64 (drift_of o n)
drift_of_fits o n = omega (arith, drift_of_bounds o n, parts_exclusive (drift_of o n))

pub slope_drift-ret :
    (o n : Sample)
    → InRange o
    → InRange n
    → o.local_us < n.local_us
    → slope_drift o n ≡ ret (drift_of o n)
unfolding slope_drift drift_of
slope_drift-ret o n ho hn h =
    let dy = pos n.server_ns -ℤ pos o.server_ns in
    let dx = n.local_us - o.local_us in
    let dy_parts = -ℤ_parts (pos n.server_ns) (pos o.server_ns) in
    let scaled = *ℤ_pos_parts dy 1_000_000 in
    let slope = quot (dy *ℤ pos 1_000_000) (pos dx) in
    let slope_parts = quot_pos_le (dy *ℤ pos 1_000_000) dx in
    let drift = slope -ℤ pos 1_000_000_000 in
    let drift_parts = -ℤ_parts slope (pos 1_000_000_000) in
    rw
      (
        signed-small 128 n.server_ns (omega arith),
        signed-small 128 o.server_ns (omega arith),
        checked_i-ret 128 dy (omega arith),
        saturate_i-fits 128 (dy *ℤ pos 1_000_000) (omega arith),
        div_i-ret 128 (dy *ℤ pos 1_000_000) dx (omega arith) (omega arith),
        checked_i-ret 128 drift (omega arith),
      )
      (ap ret (wrap_i-fits 64 _ (omega arith) (drift_of_fits o n)))

-- The drift that `refit` stores for the two samples.
pub drift_between : Sample → Sample → ℤ
drift_between o n = if ltb (o.local_us + 1_000_000) n.local_us then drift_of o n else pos 0

pub two_point_drift-ret :
    (o n : Sample)
    → InRange o
    → InRange n
    → two_point_drift (some o) (some n) ≡ ret (drift_between o n)
unfolding two_point_drift drift_between
two_point_drift-ret o n ho hn =
    rw (checked_u-ret 64 (o.local_us + 1_000_000) (omega arith))
      (elim (Bool-cases (ltb (o.local_us + 1_000_000) n.local_us)) [
        | inl far ↦ rw far (slope_drift-ret o n ho hn (omega (tests, ltb→lt _ _ far)))
        | inr close ↦ rw close refl
      ])

pub drift_between_bounds :
    (o n : Sample) → (negsuc 999_999 ≤ℤ drift_between o n) × (drift_between o n ≤ℤ pos 1_000_000)
unfolding drift_between
drift_between_bounds o n = ground (arith, drift_of_bounds o n)

nominal_rise :
    (o n : Sample)
    → o.local_us < n.local_us
    → offset_of o ≡ offset_of n
    → pos n.server_ns -ℤ pos o.server_ns ≡ pos ((n.local_us - o.local_us) * 1_000)
unfolding offset_of
nominal_rise o n h e = omega (
  int_laws,
  ap pos_part e,
  ap neg_part e,
  -ℤ_parts (pos o.server_ns) (pos (o.local_us * 1_000)),
  -ℤ_parts (pos n.server_ns) (pos (n.local_us * 1_000)),
)

drift_of_nominal :
    (o n : Sample) → o.local_us < n.local_us → offset_of o ≡ offset_of n → drift_of o n ≡ pos 0
unfolding drift_of
drift_of_nominal o n h e =
    let dx = n.local_us - o.local_us in
    let positive : 0 < dx = omega arith in
    let slope : dx * 1_000 * 1_000_000 / dx ≡ 1_000_000_000 =
      ap (λ t. t / dx) (omega arith) ∙ mul-div_cancel 1_000_000_000 positive in
    rw (nominal_rise o n h e, pos-*ℤ-pos, quot-pos, slope, -ℤ_self)
      (clamp_inside _ _ (pos 0) (omega arith) (omega arith))

-- A server clock that ticks exactly 1000 ns for each local µs shows no drift.
pub drift_between_nominal : (o n : Sample) → offset_of o ≡ offset_of n → drift_between o n ≡ pos 0
unfolding drift_between
drift_between_nominal o n e = elim (Bool-cases (ltb (o.local_us + 1_000_000) n.local_us)) [
  | inl far ↦ rw far (drift_of_nominal o n (omega (tests, ltb→lt _ _ far)) e)
  | inr close ↦ rw close refl
]
