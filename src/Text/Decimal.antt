-- ===== src/Text/Decimal.antt =====
-- A number that was printed is read back.
use mathlib.Core.Logic.{ite, dite}
use mathlib.Core.List.{append_assoc, append-nil}
use mathlib.Core.WellFounded
use mathlib.Core.WellFounded.{Acc, Acc-prop}
use esp_clock_sync.Prelude.{
  ℕ, ◌+◌, ◌*◌, ◌/◌, ◌%◌, ◌^◌, ◌≤◌, ◌<◌, ◌≡◌, refl, ap, sym, ◌∙◌, arith, List, [], ◌∷◌, ◌++◌, some,
  dec_lt, All, All-append, length, length-append,
}
use esp_clock_sync.Prelude.Order.{lt_wf}
use esp_clock_sync.Text.{decimal_digits, decimal, to_digit, scan_digits, from_str_radix, tenth_lt}

abbrev pub IsDigit : ℕ → Type 0
IsDigit c = (b'0' ≤ c) × (c ≤ b'9')

decimal_digits_step :
    (n : ℕ) (w : Acc ◌<◌ n) (w' : Acc ◌<◌ (n / 10))
    → decimal_digits n w
      ≡ ite (dec_lt n 10) ((b'0' + n) ∷ []) (decimal_digits (n / 10) w' ++ ((b'0' + n % 10) ∷ []))
unfolding decimal_digits
decimal_digits_step n (Acc.intro _ smaller) w' = λ i.
    dite (dec_lt n 10) (λ h. (b'0' + n) ∷ [])
      (λ h.
        decimal_digits (n / 10) (Acc-prop (smaller (n / 10) (tenth_lt n h)) w' i)
        ++ ((b'0' + n % 10) ∷ []))

decimal_step :
    (n : ℕ)
    → decimal n ≡ ite (dec_lt n 10) ((b'0' + n) ∷ []) (decimal (n / 10) ++ ((b'0' + n % 10) ∷ []))
unfolding decimal
decimal_step n = decimal_digits_step n (lt_wf.apply n) (lt_wf.apply (n / 10))

pub decimal_small : (n : ℕ) → n < 10 → decimal n ≡ (b'0' + n) ∷ []
decimal_small n h = ground (arith, decimal_step n)

pub decimal_large : (n : ℕ) → 9 < n → decimal n ≡ decimal (n / 10) ++ ((b'0' + n % 10) ∷ [])
decimal_large n h = ground (arith, decimal_step n)

to_digit-digit : (d : ℕ) → d < 10 → to_digit 10 (b'0' + d) ≡ some d
unfolding to_digit
to_digit-digit d h = ground arith

scan_digit :
    (w n d : ℕ) (cs : List ℕ)
    → d < 10
    → n * 10 + d < 2 ^ w
    → scan_digits 10 w n ((b'0' + d) ∷ cs) ≡ scan_digits 10 w (n * 10 + d) cs
unfolding scan_digits
scan_digit w n d cs h fits = rw (to_digit-digit d h) (ground arith)

scan_digits-decimal :
    (w n : ℕ) (rest : List ℕ)
    → n < 2 ^ w
    → scan_digits 10 w 0 (decimal n ++ rest) ≡ scan_digits 10 w n rest
scan_digits-decimal w n =
    WellFounded.induction lt_wf
      {C = λ m.
        (rest : List ℕ)
        → m < 2 ^ w
        → scan_digits 10 w 0 (decimal m ++ rest) ≡ scan_digits 10 w m rest}
      n
      λ m ih rest fits. elim (dec_lt m 10) [
        | yes small ↦ rw (decimal_small m small) (
            scan_digit w 0 m rest small (omega arith)
            ∙ ap (λ k. scan_digits 10 w k rest) (omega arith))
        | no large ↦
            rw
              (
                decimal_large m (omega arith),
                append_assoc,
                ih (m / 10) (omega arith) ((b'0' + m % 10) ∷ rest) (omega arith),
                scan_digit w (m / 10) (m % 10) rest (omega arith) (omega arith),
              )
              (ap (λ k. scan_digits 10 w k rest) (omega arith))
      ]

-- The digits are digits, and there is one.
pub decimal-IsDigit : (n : ℕ) → All IsDigit (decimal n) × (0 < length (decimal n))
decimal-IsDigit n =
    WellFounded.induction lt_wf {C = λ m. All IsDigit (decimal m) × (0 < length (decimal m))} n
      λ m ih. elim (dec_lt m 10) [
        | yes small ↦ rw (decimal_small m small) (omega arith)
        | no large ↦ rw (decimal_large m (omega arith)) (
          All-append IsDigit (decimal (m / 10)) ((b'0' + m % 10) ∷ []) (ih (m / 10) (omega arith)).0
              (omega arith),
          omega (arith, length-append (decimal (m / 10)) ((b'0' + m % 10) ∷ [])),
        )
      ]

from_str_radix-scan :
    (w : ℕ) (cs : List ℕ)
    → All IsDigit cs
    → 0 < length cs
    → from_str_radix 10 w cs ≡ scan_digits 10 w 0 cs
unfolding from_str_radix
from_str_radix-scan w [] h k = absurd (omega arith)
from_str_radix-scan w (c ∷ []) h k = refl
from_str_radix-scan w (c ∷ d ∷ cs) h k = ground arith

-- A number of `w` bits that was printed is parsed to itself.
pub from_str_radix-decimal : (w n : ℕ) → n < 2 ^ w → from_str_radix 10 w (decimal n) ≡ some n
from_str_radix-decimal w n fits =
    let d = decimal-IsDigit n in
    from_str_radix-scan w (decimal n) d.0 d.1
    ∙ ap (scan_digits 10 w 0) (sym (append-nil (decimal n)))
    ∙ scan_digits-decimal w n [] fits
    ∙ unfold scan_digits in refl
