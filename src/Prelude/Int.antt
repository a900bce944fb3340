-- ===== src/Prelude/Int.antt =====
-- Signed integers over the native numbers, under the library's names. Sums and orders go through
-- the two parts of an integer, which are numbers that `omega` reads.
use Prim.Native.Nat.{ℕ, zero, suc, ◌<◌, ◌+◌, ◌-◌, ◌*◌, ◌/◌, ◌^◌, ◌≤◌}
use mathlib.Core.Path.{◌≡◌, refl}
use mathlib.Core.Logic.{◌⊎◌, inl, inr}
use mathlib.Core.Bool.{Bool, ◌&&◌}
use native.Mathlib.Nat.{le-div_iff_mul-le, div-le_of_le-mul, div-le_self}
use native.Mathlib.Omega.{arith}
use esp_clock_sync.Prelude.Tests.{ltb, leb, if◌then◌else◌}

-- `negsuc n` is -(n + 1).
pub data ℤ : Type 0 where
  pos : ℕ → ℤ
  negsuc : ℕ → ℤ

abbrev pub pos_part : ℤ → ℕ
pos_part (pos n) = n
pos_part (negsuc n) = 0

abbrev pub neg_part : ℤ → ℕ
neg_part (pos n) = 0
neg_part (negsuc n) = suc n

-- a - b, as an integer.
abbrev pub sub_ℕ : ℕ → ℕ → ℤ
sub_ℕ a b = if leb b a then pos (a - b) else negsuc (b - a - 1)

infixl 65 ◌+ℤ◌ ◌-ℤ◌
infixl 70 ◌*ℤ◌
infix 50 ◌≤ℤ◌
unfoldable pub ◌+ℤ◌ : ℤ → ℤ → ℤ
a +ℤ b = sub_ℕ (pos_part a + pos_part b) (neg_part a + neg_part b)

unfoldable pub ◌-ℤ◌ : ℤ → ℤ → ℤ
a -ℤ b = sub_ℕ (pos_part a + neg_part b) (neg_part a + pos_part b)

unfoldable pub ◌*ℤ◌ : ℤ → ℤ → ℤ
a *ℤ b =
    sub_ℕ (pos_part a * pos_part b + neg_part a * neg_part b)
      (pos_part a * neg_part b + neg_part a * pos_part b)

-- Division that rounds to zero, as Rust's `/`. One part of each integer is zero, and so is `n / 0`.
unfoldable pub quot : ℤ → ℤ → ℤ
quot a b =
    sub_ℕ (pos_part a / pos_part b + neg_part a / neg_part b)
      (pos_part a / neg_part b + neg_part a / pos_part b)

-- An arithmetic shift to the right, which rounds down.
unfoldable pub shr : ℕ → ℤ → ℤ
shr k (pos n) = pos (n / 2 ^ k)
shr k (negsuc n) = negsuc (n / 2 ^ k)

abbrev pub abs : ℤ → ℕ
abs a = pos_part a + neg_part a

abbrev pub ◌≤ℤ◌ : ℤ → ℤ → Type 0
a ≤ℤ b = pos_part a + neg_part b ≤ pos_part b + neg_part a

abbrev pub ltb_ℤ : ℤ → ℤ → Bool
ltb_ℤ a b = ltb (pos_part a + neg_part b) (pos_part b + neg_part a)

abbrev pub leb_ℤ : ℤ → ℤ → Bool
leb_ℤ a b = leb (pos_part a + neg_part b) (pos_part b + neg_part a)

abbrev pub eqb_ℤ : ℤ → ℤ → Bool
eqb_ℤ a b = leb_ℤ a b && leb_ℤ b a

unfoldable pub clamp : ℤ → ℤ → ℤ → ℤ
clamp lo hi a = if ltb_ℤ a lo then lo else if ltb_ℤ hi a then hi else a

-- One lemma for each operation lets `omega` work with the operations shut, at any depth.
pub +ℤ_parts :
    (a b : ℤ)
    → (pos_part (a +ℤ b) + neg_part a + neg_part b ≡ neg_part (a +ℤ b) + pos_part a + pos_part b)
      × (pos_part (a +ℤ b) ≤ pos_part a + pos_part b)
      × (neg_part (a +ℤ b) ≤ neg_part a + neg_part b)
unfolding ◌+ℤ◌
+ℤ_parts a b = ground arith

pub -ℤ_parts :
    (a b : ℤ)
    → (pos_part (a -ℤ b) + neg_part a + pos_part b ≡ neg_part (a -ℤ b) + pos_part a + neg_part b)
      × (pos_part (a -ℤ b) ≤ pos_part a + neg_part b)
      × (neg_part (a -ℤ b) ≤ neg_part a + pos_part b)
unfolding ◌-ℤ◌
-ℤ_parts a b = ground arith

pub parts_exclusive : (a : ℤ) → (pos_part a ≡ 0) ⊎ (neg_part a ≡ 0)
parts_exclusive (pos n) = inr refl
parts_exclusive (negsuc n) = inl refl

pub eq_of_parts : (a b : ℤ) → pos_part a + neg_part b ≡ pos_part b + neg_part a → a ≡ b
eq_of_parts a b h = ground arith

pub ruleset int_laws = (arith, +ℤ_parts, -ℤ_parts, eq_of_parts)

-- A product with a number.
pub *ℤ_pos_parts :
    (a : ℤ) (n : ℕ)
    → (pos_part (a *ℤ pos n) ≡ pos_part a * n) × (neg_part (a *ℤ pos n) ≡ neg_part a * n)
unfolding ◌*ℤ◌
*ℤ_pos_parts a n = ground arith

pub quot_pos_parts :
    (a : ℤ) (n : ℕ)
    → (pos_part (quot a (pos n)) ≡ pos_part a / n) × (neg_part (quot a (pos n)) ≡ neg_part a / n)
unfolding quot
quot_pos_parts a n = ground arith

pub shr_parts :
    (k : ℕ) (a : ℤ) → (pos_part (shr k a) ≤ pos_part a) × (neg_part (shr k a) ≤ neg_part a)
unfolding shr
shr_parts k (pos n) = ground arith
shr_parts k (negsuc n) = ground arith

pub clamp_bounds : (lo hi a : ℤ) → lo ≤ℤ hi → (lo ≤ℤ clamp lo hi a) × (clamp lo hi a ≤ℤ hi)
unfolding clamp
clamp_bounds lo hi a h = ground arith

pub clamp_inside : (lo hi a : ℤ) → lo ≤ℤ a → a ≤ℤ hi → clamp lo hi a ≡ a
unfolding clamp
clamp_inside lo hi a p q = ground arith

pub pos-*ℤ-pos : (m n : ℕ) → pos m *ℤ pos n ≡ pos (m * n)
unfolding ◌*ℤ◌
pos-*ℤ-pos m n = ground arith

pub pos_zero_add : (a : ℤ) → pos 0 +ℤ a ≡ a
pos_zero_add a = omega int_laws

pub +ℤ_assoc : (a b c : ℤ) → a +ℤ b +ℤ c ≡ a +ℤ (b +ℤ c)
+ℤ_assoc a b c = omega int_laws

pub +ℤ_comm : (a b : ℤ) → a +ℤ b ≡ b +ℤ a
+ℤ_comm a b = omega int_laws

le_div : (p t k : ℕ) → 0 < k → p * k ≤ t → p ≤ t / k
le_div p t k hk h = (le-div_iff_mul-le hk).1 h

div_le : (p t k : ℕ) → t ≤ k * p → t / k ≤ p
div_le p t k h = div-le_of_le-mul k h

-- A quotient by a positive number lies between the bounds of the mean.
pub quot_ge :
    (lo t : ℤ) (k : ℕ)
    → 0 < k
    → pos_part lo * k + neg_part t ≤ pos_part t + neg_part lo * k
    → lo ≤ℤ quot t (pos k)
unfolding quot
quot_ge (pos p) (pos t) k hk h = ground (arith, le_div p t k hk (omega arith))
quot_ge (pos zero) (negsuc t) k hk h = absurd (omega arith)
quot_ge (pos (suc p)) (negsuc t) k hk h = absurd (omega arith)
quot_ge (negsuc m) (pos t) k hk h = ground arith
quot_ge (negsuc m) (negsuc t) k hk h = ground (arith, div_le (suc m) (suc t) k (omega arith))

pub quot_le :
    (hi t : ℤ) (k : ℕ)
    → 0 < k
    → pos_part t + neg_part hi * k ≤ pos_part hi * k + neg_part t
    → quot t (pos k) ≤ℤ hi
unfolding quot
quot_le (pos p) (pos t) k hk h = ground (arith, div_le p t k (omega arith))
quot_le (pos p) (negsuc t) k hk h = ground arith
quot_le (negsuc m) (pos t) k hk h = absurd (omega arith)
quot_le (negsuc m) (negsuc t) k hk h = ground (arith, le_div (suc m) (suc t) k hk (omega arith))

pub quot_pos_le :
    (a : ℤ) (n : ℕ)
    → (pos_part (quot a (pos n)) ≤ pos_part a) × (neg_part (quot a (pos n)) ≤ neg_part a)
quot_pos_le a n =
    let parts = quot_pos_parts a n in
    omega (arith, div-le_self (pos_part a) n, div-le_self (neg_part a) n)

pub quot-pos : (m n : ℕ) → quot (pos m) (pos n) ≡ pos (m / n)
unfolding quot
quot-pos m n = ground arith

pub -ℤ_self : (a : ℤ) → a -ℤ a ≡ pos 0
-ℤ_self a = omega int_laws

pub pos-+ℤ-pos : (m n : ℕ) → pos m +ℤ pos n ≡ pos (m + n)
pos-+ℤ-pos m n = omega int_laws

pub pos--ℤ-pos : (m n : ℕ) → n ≤ m → pos m -ℤ pos n ≡ pos (m - n)
pos--ℤ-pos m n h = omega int_laws

pub pos_of_nonneg : (a : ℤ) → pos 0 ≤ℤ a → (n : ℕ) × (a ≡ pos n)
pos_of_nonneg (pos n) h = (n, refl)
pos_of_nonneg (negsuc n) h = absurd (omega arith)
