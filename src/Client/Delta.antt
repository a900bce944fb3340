-- ===== src/Client/Delta.antt =====
-- The smoothed difference between the `Instant` clock and the TSF.
use esp_clock_sync.Prelude.{ℕ, ◌^◌, ◌<◌, ◌≡◌, refl, ◌⊎◌, inl, inr, false, if◌then◌else◌, arith, ret}
use esp_clock_sync.Prelude.Int.{
  ℤ, pos, ◌+ℤ◌, ◌-ℤ◌, ◌≤ℤ◌, quot, -ℤ_parts, +ℤ_parts, quot_pos_parts, parts_exclusive, eqb_ℤ,
}
use esp_clock_sync.Prelude.Words.{
  FitsI, signed, signed-small, wrap_i, wrap_i-fits, checked_i-ret, div_i-ret,
}
use esp_clock_sync.Client.{delta_unset, smooth, update_delta}

-- The next difference, in whole numbers: the measured one at first, and from then on a step of one
-- 64th towards it.
abbrev pub delta_after : ℤ → ℕ → ℕ → ℤ
delta_after prev instant own =
    let measured = pos instant -ℤ pos own in
    if eqb_ℤ prev delta_unset then measured else prev +ℤ quot (measured -ℤ prev) (pos 64)

smooth_between :
    (prev new lo hi : ℤ)
    → lo ≤ℤ prev
    → prev ≤ℤ hi
    → lo ≤ℤ new
    → new ≤ℤ hi
    → FitsI 63 lo
    → FitsI 63 hi
    → (smooth prev new ≡ ret (prev +ℤ quot (new -ℤ prev) (pos 64)))
      × (lo ≤ℤ prev +ℤ quot (new -ℤ prev) (pos 64))
      × (prev +ℤ quot (new -ℤ prev) (pos 64) ≤ℤ hi)
unfolding smooth
smooth_between prev new lo hi p q m n f g =
    let x = parts_exclusive prev in
    let y = parts_exclusive new in
    let diff = -ℤ_parts new prev in
    let z = parts_exclusive (new -ℤ prev) in
    let part = quot_pos_parts (new -ℤ prev) 64 in
    let sum = +ℤ_parts prev (quot (new -ℤ prev) (pos 64)) in
    (
      rw
          (
            checked_i-ret 64 (new -ℤ prev) (omega arith, omega arith),
            div_i-ret 64 (new -ℤ prev) 64 (omega arith) (omega arith, omega arith),
          )
          (checked_i-ret 64 _ (omega arith, omega arith)),
      omega arith,
      omega arith,
    )

new_delta_exact :
    (instant own : ℕ)
    → instant < 2 ^ 62
    → own < 2 ^ 62
    → wrap_i 64 (signed 64 instant -ℤ signed 64 own) ≡ pos instant -ℤ pos own
new_delta_exact instant own p q =
    let n = -ℤ_parts (pos instant) (pos own) in
    rw (signed-small 64 instant (omega arith), signed-small 64 own (omega arith))
      (wrap_i-fits 64 _ (omega arith) (omega arith, omega arith))

-- The smoothed difference is that of whole numbers: there is no overflow for clocks below 2^62. It
-- stays between any bounds of the measured one and of the last one, where there is a last one.
pub update_delta_between :
    (prev lo hi : ℤ) (instant own : ℕ)
    → instant < 2 ^ 62
    → own < 2 ^ 62
    → (prev ≡ delta_unset) ⊎ ((lo ≤ℤ prev) × (prev ≤ℤ hi))
    → lo ≤ℤ pos instant -ℤ pos own
    → pos instant -ℤ pos own ≤ℤ hi
    → FitsI 63 lo
    → FitsI 63 hi
    → (update_delta prev instant own ≡ ret (delta_after prev instant own))
      × (lo ≤ℤ delta_after prev instant own)
      × (delta_after prev instant own ≤ℤ hi)
unfolding update_delta
update_delta_between prev lo hi instant own hi_i hi_o known low high f_lo f_hi = elim known [
  | inl first ↦
      (rw (new_delta_exact instant own hi_i hi_o, first) refl, rw first low, rw first high)
  | inr (p, q) ↦
      let (runs, above, below) =
        smooth_between prev (pos instant -ℤ pos own) lo hi p q low high f_lo f_hi in
      let set : eqb_ℤ prev delta_unset ≡ false = ground arith in
      (rw (new_delta_exact instant own hi_i hi_o, set) runs, rw set above, rw set below)
]
