-- ===== src/Isqrt.antt =====
-- crates/clock-sync/src/lib.rs, `isqrt_u128`: the integer square root by Newton's iteration.
pub mod Root
mod Tests
use mathlib.Core.Logic.{dite}
use mathlib.Core.WellFounded.{Acc}
use esp_clock_sync.Prelude.{
  ℕ, ◌+◌, ◌/◌, ◌<◌, dec_lt, ltb, ◌==◌, if◌then◌else◌, Exec, ret, panic, ◌>>=◌,
}
use esp_clock_sync.Prelude.Words.{checked_u}
use esp_clock_sync.Prelude.Order.{lt_wf}

-- `a / b` of unsigned integers, which panics on a zero divisor.
abbrev pub div_u : ℕ → ℕ → Exec ℕ
div_u a b = if b == 0 then panic else ret (a / b)

-- `while y < x { x = y; y = (x + n / x) / 2; } x`. The loop's `x` falls, so there is no fuel.
unfoldable pub isqrt_loop : (n x y : ℕ) → Acc ◌<◌ x → Exec ℕ
isqrt_loop n x y (Acc.intro _ smaller) =
    dite (dec_lt y x)
      (λ h. div_u n y >>= λ q. checked_u 128 (y + q) >>= λ s. isqrt_loop n y (s / 2) (smaller y h))
      (λ _. ret x)

unfoldable pub isqrt_u128 : ℕ → Exec ℕ
isqrt_u128 n =
    if ltb n 2 then ret n else checked_u 128 (n + 1) >>= λ s. isqrt_loop n n (s / 2) (lt_wf.apply n)
