-- ===== src/Isqrt/Tests.antt =====
-- The root at a concrete number.
use esp_clock_sync.Prelude.{ℕ, ◌+◌, ◌*◌, ◌≤◌, ◌<◌, ◌≡◌, arith, ret}
use esp_clock_sync.Isqrt.{isqrt_u128}
use esp_clock_sync.Isqrt.Root.{isqrt_u128-IsRoot}

isqrt_u128-IsRoot_example :
    (r : ℕ) × (isqrt_u128 1_000_003 ≡ ret r) × (r * r ≤ 1_000_003) × (1_000_003 < (r + 1) * (r + 1))
isqrt_u128-IsRoot_example = isqrt_u128-IsRoot 1_000_003 (omega arith)
