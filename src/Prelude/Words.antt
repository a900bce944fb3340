-- ===== src/Prelude/Words.antt =====
-- Rust's integers of `w` bits: checked, saturating and wrapping arithmetic. An unsigned one is a
-- native number, a signed one an integer, each in its range.
use Prim.Native.Nat.{ℕ, zero, suc, ◌+◌, ◌*◌, ◌-◌, ◌%◌, ◌^◌, ◌≤◌, ◌<◌}
use mathlib.Core.Path.{◌≡◌, refl}
use mathlib.Core.Bool.{◌&&◌}
use native.Mathlib.Nat.{pow-succ', mod-lt, mod-eq_of_lt, div-le_self, one-le-pow}
use native.Mathlib.Omega.{arith}
use esp_clock_sync.Prelude.Tests.{ltb, leb, ◌==◌, if◌then◌else◌}
use esp_clock_sync.Prelude.Panic.{Exec, ret, panic}
use esp_clock_sync.Prelude.Int.{ℤ, pos, negsuc, pos_part, neg_part, ◌*ℤ◌, abs, quot, quot_pos_parts}

abbrev pub FitsU : ℕ → ℕ → Type 0
FitsU w n = n < 2 ^ w

abbrev pub FitsI : ℕ → ℤ → Type 0
FitsI w a = (pos_part a < 2 ^ (w - 1)) × (neg_part a ≤ 2 ^ (w - 1))

-- The result of an unsigned operation with overflow checks.
unfoldable pub checked_u : ℕ → ℕ → Exec ℕ
checked_u w n = if ltb n (2 ^ w) then ret n else panic

-- The result of a signed operation with overflow checks.
unfoldable pub checked_i : ℕ → ℤ → Exec ℤ
checked_i w a =
    if ltb (pos_part a) (2 ^ (w - 1)) && leb (neg_part a) (2 ^ (w - 1)) then ret a else panic

unfoldable pub saturate_u : ℕ → ℕ → ℕ
saturate_u w n = if ltb n (2 ^ w) then n else 2 ^ w - 1

unfoldable pub saturate_i : ℕ → ℤ → ℤ
saturate_i w a =
    if leb (2 ^ (w - 1)) (pos_part a)
    then pos (2 ^ (w - 1) - 1)
    else if ltb (2 ^ (w - 1)) (neg_part a)
    then negsuc (2 ^ (w - 1) - 1)
    else a

-- The bit pattern of an integer in `w` bits: `as u64`.
unfoldable pub wrap_u : ℕ → ℤ → ℕ
wrap_u w (pos n) = n % 2 ^ w
wrap_u w (negsuc n) = 2 ^ w - 1 - n % 2 ^ w

-- The integer that a bit pattern of `w` bits stands for: `as i64` of an unsigned number.
unfoldable pub signed : ℕ → ℕ → ℤ
signed w n = if ltb n (2 ^ (w - 1)) then pos n else negsuc (2 ^ w - n - 1)

-- A cast of a wider signed number, or a wrapping operation.
unfoldable pub wrap_i : ℕ → ℤ → ℤ
unfolding wrap_u signed
wrap_i w a = signed w (wrap_u w a)

-- `a << k` at `w` bits: bits that leave are lost, with no overflow check.
unfoldable pub shl : ℕ → ℕ → ℤ → ℤ
unfolding wrap_i
shl w k a = wrap_i w (a *ℤ pos (2 ^ k))

-- `a / b` at `w` bits: a zero divisor panics, and so does MIN / -1.
unfoldable pub div_i : ℕ → ℤ → ℤ → Exec ℤ
unfolding checked_i
div_i w a b = if abs b == 0 then panic else checked_i w (quot a b)

pub checked_u-ret : (w n : ℕ) → FitsU w n → checked_u w n ≡ ret n
unfolding checked_u
checked_u-ret w n h = ground arith

pub checked_i-ret : (w : ℕ) (a : ℤ) → FitsI w a → checked_i w a ≡ ret a
unfolding checked_i
checked_i-ret w a h = ground arith

pub saturate_i-fits : (w : ℕ) (a : ℤ) → FitsI w a → saturate_i w a ≡ a
unfolding saturate_i
saturate_i-fits w a h = ground arith

pub saturate_u-fits : (w n : ℕ) → FitsU w n → saturate_u w n ≡ n
unfolding saturate_u
saturate_u-fits w n h = ground arith

pub signed-small : (w n : ℕ) → n < 2 ^ (w - 1) → signed w n ≡ pos n
unfolding signed
signed-small w n h = ground arith

pub wrap_u-small : (w n : ℕ) → n < 2 ^ w → wrap_u w (pos n) ≡ n
unfolding wrap_u
wrap_u-small w n h = grind arith

pow_half : (w : ℕ) → 0 < w → 2 ^ w ≡ 2 * 2 ^ (w - 1)
pow_half zero h = absurd (omega arith)
pow_half (suc w) h = let e : suc w - 1 ≡ w = omega arith in rw (e, pow-succ') refl

-- A cast keeps an integer that fits.
pub wrap_i-fits : (w : ℕ) (a : ℤ) → 0 < w → FitsI w a → wrap_i w a ≡ a
unfolding wrap_i
wrap_i-fits w (pos n) hw h = grind (arith, pow_half w hw, mod-eq_of_lt)
wrap_i-fits w (negsuc n) hw h = grind (arith, pow_half w hw, mod-eq_of_lt)

pub div_i-ret :
    (w : ℕ) (a : ℤ) (k : ℕ) → 0 < k → FitsI w a → div_i w a (pos k) ≡ ret (quot a (pos k))
unfolding div_i
div_i-ret w a k hk h =
    ground (arith, quot_pos_parts a k, div-le_self (pos_part a) k, div-le_self (neg_part a) k)

pub saturate_i-FitsI : (w : ℕ) (a : ℤ) → FitsI w (saturate_i w a)
unfolding saturate_i
saturate_i-FitsI w a = ground (arith, one-le-pow (w - 1) 2)

pub saturate_u_le : (w n : ℕ) → saturate_u w n ≤ n
unfolding saturate_u
saturate_u_le w n = ground arith

pub saturate_u-FitsU : (w n : ℕ) → FitsU w (saturate_u w n)
unfolding saturate_u
saturate_u-FitsU w n = ground (arith, one-le-pow w 2)

pub saturate_u_sum : (w a b : ℕ) → saturate_u w (saturate_u w a + b) ≡ saturate_u w (a + b)
unfolding saturate_u
saturate_u_sum w a b = ground (arith, one-le-pow w 2)

signed-FitsI : (w n : ℕ) → 0 < w → n < 2 ^ w → FitsI w (signed w n)
unfolding signed
signed-FitsI w n hw h = let e = pow_half w hw in ground arith

wrap_u-FitsU : (w : ℕ) (a : ℤ) → FitsU w (wrap_u w a)
unfolding wrap_u
wrap_u-FitsU w (pos n) = mod-lt n (omega (arith, one-le-pow w 2))
wrap_u-FitsU w (negsuc n) = omega (arith, one-le-pow w 2)

-- A cast lands in the range of its type.
pub wrap_i-FitsI : (w : ℕ) (a : ℤ) → 0 < w → FitsI w (wrap_i w a)
unfolding wrap_i
wrap_i-FitsI w a hw = signed-FitsI w (wrap_u w a) hw (wrap_u-FitsU w a)
