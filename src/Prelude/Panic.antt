-- ===== src/Prelude/Panic.antt =====
-- A computation that may panic: an arithmetic overflow in a build with overflow checks, a division
-- by zero, or an index out of range.
use mathlib.Core.Path.{◌≡◌, refl}

pub data Exec {ℓ} (A : Type ℓ) : Type ℓ where
  ret : A → Exec A
  panic : Exec A

infixl 5 ◌>>=◌
abbrev pub ◌>>=◌ {ℓ κ} : {A : Type ℓ} {B : Type κ} → Exec A → (A → Exec B) → Exec B
ret a >>= f = f a
panic >>= f = panic

pub bind_ret {ℓ} : {A : Type ℓ} (e : Exec A) → (e >>= ret) ≡ e
bind_ret (ret a) = refl
bind_ret panic = refl

-- A run of two parts, where the second goes on from each result of the first.
pub bind_then {ℓ} :
    {A : Type ℓ} (e : Exec A) (f g : A → Exec A) (k : A → Exec A)
    → ((a : A) → f a ≡ (g a >>= k))
    → (e >>= f) ≡ (e >>= g >>= k)
bind_then (ret a) f g k h = h a
bind_then panic f g k h = refl
