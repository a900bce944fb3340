-- ===== src/Estimator/Offsets.antt =====
-- The offsets of the samples, and the first and third loop of `refit` on samples in range.
use esp_clock_sync.Prelude.{
  ℕ, ◌+◌, ◌*◌, ◌^◌, ◌≤◌, ◌<◌, ◌≡◌, ap₂, List, [], ◌∷◌, ◌++◌, arith, length, All, ret,
}
use esp_clock_sync.Prelude.Int.{
  ℤ, pos, pos_part, neg_part, ◌+ℤ◌, ◌-ℤ◌, int_laws, pos-*ℤ-pos, +ℤ_parts, -ℤ_parts,
}
use esp_clock_sync.Prelude.Words.{checked_i-ret, checked_u-ret, signed-small}
use esp_clock_sync.Estimator.{Sample, sample_offset, sum_offsets}

-- A server time below 2^72 ns, some 149 000 years after the epoch, and a local time below 2^62 µs.
abbrev pub InRange : Sample → Type 0
InRange s = (s.server_ns < 2 ^ 72) × (s.local_us < 2 ^ 62)

-- How far the server's clock is ahead of the local one, in ns.
unfoldable pub offset_of : Sample → ℤ
offset_of s = pos s.server_ns -ℤ pos (s.local_us * 1_000)

unfoldable pub total : List Sample → ℤ
total [] = pos 0
total (s ∷ ss) = offset_of s +ℤ total ss

pub offset_of_bounds :
    (s : Sample) → InRange s → (pos_part (offset_of s) < 2 ^ 72) × (neg_part (offset_of s) < 2 ^ 72)
unfolding offset_of
offset_of_bounds s h = omega (int_laws, -ℤ_parts (pos s.server_ns) (pos (s.local_us * 1_000)))

pub sample_offset-ret : (s : Sample) → InRange s → sample_offset s ≡ ret (offset_of s)
unfolding sample_offset offset_of
sample_offset-ret s h =
    rw
      (
        pos-*ℤ-pos s.local_us 1_000,
        checked_i-ret 128 (pos (s.local_us * 1_000)) (omega arith),
        signed-small 128 s.server_ns (omega arith),
      )
      (checked_i-ret 128 _ (omega (arith, -ℤ_parts (pos s.server_ns) (pos (s.local_us * 1_000)))))

pub total-append : (xs ys : List Sample) → total (xs ++ ys) ≡ total xs +ℤ total ys
unfolding total
total-append [] ys = omega int_laws
total-append (x ∷ xs) ys = rw (total-append xs ys) (omega int_laws)

-- The sum does not depend on where the array's order starts.
pub total_rotate : (xs ys : List Sample) → total (xs ++ ys) ≡ total (ys ++ xs)
total_rotate xs ys = rw (total-append xs ys, total-append ys xs) (omega int_laws)

pub sum_offsets-ret :
    (ss : List Sample) (sum : ℤ) (k : ℕ)
    → All InRange ss
    → pos_part sum ≤ k * 2 ^ 72
    → neg_part sum ≤ k * 2 ^ 72
    → k + length ss ≤ 256
    → sum_offsets ss sum k ≡ ret (sum +ℤ total ss, k + length ss)
unfolding sum_offsets total
sum_offsets-ret [] sum k h p q len = ap₂ (λ a b. ret (a, b)) (omega int_laws) (omega arith)
sum_offsets-ret (s ∷ ss) sum k h p q len =
    let b = offset_of_bounds s h.0 in
    let parts = +ℤ_parts sum (offset_of s) in
    rw
      (
        sample_offset-ret s h.0,
        checked_i-ret 128 (sum +ℤ offset_of s) (omega arith),
        checked_u-ret 32 (k + 1) (omega arith),
        sum_offsets-ret ss (sum +ℤ offset_of s) (k + 1) h.1 (omega arith) (omega arith)
            (omega arith),
      )
      (ap₂ (λ a b. ret (a, b)) (omega int_laws) (omega arith))

pub total_bounds :
    (ss : List Sample)
    → All InRange ss
    → (pos_part (total ss) ≤ length ss * 2 ^ 72) × (neg_part (total ss) ≤ length ss * 2 ^ 72)
unfolding total
total_bounds [] h = omega arith
total_bounds (s ∷ ss) h =
    omega (arith, total_bounds ss h.1, offset_of_bounds s h.0, +ℤ_parts (offset_of s) (total ss))
