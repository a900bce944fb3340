-- ===== src/Estimator/Queries.antt =====
-- The queries of the estimator: what they return before eight samples, how far they can be off, and
-- that they invert one another.
use esp_clock_sync.Prelude.{
  ℕ, ◌+◌, ◌-◌, ◌*◌, ◌/◌, ◌^◌, ◌≤◌, ◌<◌, ◌≡◌, refl, ap, ◌∙◌, List, none, some, arith, length, All,
  All-map,
}
use esp_clock_sync.Prelude.Int.{
  pos, pos_part, neg_part, ◌≤ℤ◌, quot-pos, pos-*ℤ-pos, int_laws, -ℤ_parts, pos_of_nonneg,
  pos-+ℤ-pos, pos--ℤ-pos,
}
use esp_clock_sync.Prelude.Words.{saturate_i-fits, signed-small, wrap_u-small}
use esp_clock_sync.Window.Push.{Holds-sizes}
use esp_clock_sync.Estimator.{Sample, Estimator, u32_max, synced_ns_at, local_us_at, quality}
use esp_clock_sync.Estimator.Offsets.{offset_of}
use esp_clock_sync.Estimator.Means.{mean_of, mean_of-ge, mean_of-le}
use esp_clock_sync.Estimator.History.{Inv}

-- The query computes the sum where the offset is not negative and the sum is a u72.
synced_ns_at-some :
    (e : Estimator) (c t : ℕ)
    → 8 ≤ e.n
    → e.offset_ns ≡ pos c
    → c < 2 ^ 73
    → t < 2 ^ 64
    → synced_ns_at e t ≡ some (c + t * 1_000)
unfolding synced_ns_at
synced_ns_at-some e c t k h hc ht =
    rw
      (
        h,
        pos-*ℤ-pos t 1_000,
        saturate_i-fits 128 (pos (t * 1_000)) (omega arith),
        pos-+ℤ-pos c (t * 1_000),
        saturate_i-fits 128 (pos (c + t * 1_000)) (omega arith),
        wrap_u-small 128 (c + t * 1_000) (omega arith),
      )
      (ground arith)

-- The server is ahead of the local clock by `lo` to `hi` ns.
abbrev pub IsAhead : ℕ → ℕ → Sample → Type 0
IsAhead lo hi s = (lo + s.local_us * 1_000 ≤ s.server_ns) × (s.server_ns ≤ hi + s.local_us * 1_000)

ahead_low : (lo hi : ℕ) (s : Sample) → IsAhead lo hi s → pos lo ≤ℤ offset_of s
unfolding offset_of
ahead_low lo hi s a = omega (int_laws, -ℤ_parts (pos s.server_ns) (pos (s.local_us * 1_000)))

ahead_high : (lo hi : ℕ) (s : Sample) → IsAhead lo hi s → offset_of s ≤ℤ pos hi
unfolding offset_of
ahead_high lo hi s a = omega (int_laws, -ℤ_parts (pos s.server_ns) (pos (s.local_us * 1_000)))

mean_between :
    (xs : List Sample) (lo hi : ℕ)
    → 8 ≤ length xs
    → All (IsAhead lo hi) xs
    → (c : ℕ) × (mean_of xs ≡ pos c) × (lo ≤ c) × (c ≤ hi)
mean_between xs lo hi k ahead =
    let low : pos lo ≤ℤ mean_of xs =
      mean_of-ge (pos lo) xs (omega arith) (All-map _ _ xs (λ s a. ahead_low lo hi s a) ahead) in
    let high : mean_of xs ≤ℤ pos hi =
      mean_of-le (pos hi) xs (omega arith) (All-map _ _ xs (λ s a. ahead_high lo hi s a) ahead) in
    let (c, e_c) = pos_of_nonneg (mean_of xs) (omega arith) in
    let p = ap pos_part e_c in let n = ap neg_part e_c in (c, e_c, omega arith, omega arith)

-- If in each sample of the window the server is ahead by `lo` to `hi` ns, then so is the answer of
-- `synced_ns_at` at every local time, and there is one from eight samples on.
pub synced_ns_at_bounds :
    (e : Estimator) (xs : List Sample) (lo hi t : ℕ)
    → Inv e xs
    → 8 ≤ length xs
    → All (IsAhead lo hi) xs
    → hi < 2 ^ 72
    → t < 2 ^ 64
    → (p : ℕ) × (synced_ns_at e t ≡ some p) × (lo + t * 1_000 ≤ p) × (p ≤ hi + t * 1_000)
synced_ns_at_bounds e xs lo hi t v k ahead h ht =
    let (c, mean, low, high) = mean_between xs lo hi k ahead in
    let sizes = Holds-sizes _ _ _ _ _ v.holds in
    (
      c + t * 1_000,
      synced_ns_at-some e c t (omega arith) (v.offset k ∙ mean) (omega arith) ht,
      omega arith,
      omega arith,
    )

-- `local_us_at` answers every server time from the offset on with the whole µs since then, and the
-- server time at its answer is at most 999 ns short of the question.
pub synced_ns_at-local_us_at :
    (e : Estimator) (c server_ns : ℕ)
    → 8 ≤ e.n
    → e.offset_ns ≡ pos c
    → c ≤ server_ns
    → server_ns < 2 ^ 73
    → (t : ℕ) × (p : ℕ) × (local_us_at e server_ns ≡ some t)
      × (synced_ns_at e t ≡ some p)
      × (p ≤ server_ns)
      × (server_ns < p + 1_000)
      × (t ≡ (server_ns - c) / 1_000)
unfolding local_us_at
synced_ns_at-local_us_at e c server_ns k h hc hs =
    let num = server_ns - c in
    (
      num / 1_000,
      c + num / 1_000 * 1_000,
      rw
          (
            h,
            signed-small 128 server_ns (omega arith),
            pos--ℤ-pos server_ns c hc,
            saturate_i-fits 128 (pos num) (omega arith),
            quot-pos,
            wrap_u-small 64 (num / 1_000) (omega arith),
          )
          (ground arith),
      synced_ns_at-some e c (num / 1_000) k h (omega arith) (omega arith),
      omega arith,
      omega arith,
      refl,
    )

-- Before eight samples both queries answer none and the quality report says so.
pub queries_before_sync :
    (e : Estimator) (xs : List Sample) (t : ℕ)
    → Inv e xs
    → length xs < 8
    → (synced_ns_at e t ≡ none)
      × (local_us_at e t ≡ none)
      × ((quality e).residual_us_p95 ≡ u32_max)
      × ((quality e).n_samples ≡ length xs)
unfolding synced_ns_at local_us_at quality
queries_before_sync e xs t v short =
    let sizes = Holds-sizes _ _ _ _ _ v.holds in
    (ground arith, ground arith, ground arith, ground arith)
