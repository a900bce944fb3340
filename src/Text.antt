-- ===== src/Text.antt =====
-- What the programs use of Rust's strings, on lists of code points: printing of numbers, parsing of
-- numbers, and splitting.
pub mod Decimal
pub mod Split
use mathlib.Core.Bool.{not}
use mathlib.Core.Logic.{dite}
use mathlib.Core.WellFounded.{Acc}
use Prim.Native.Char.{code}
use Prim.Native.String.{String}
use esp_clock_sync.Prelude.{
  ℕ, ◌+◌, ◌-◌, ◌*◌, ◌/◌, ◌%◌, ◌^◌, ◌<◌, arith, Bool, true, false, ◌&&◌, ◌||◌, List, [], ◌∷◌, ◌++◌,
  Option, none, some, ltb, leb, ◌==◌, if◌then◌else◌, and_then, dec_lt,
}
use esp_clock_sync.Prelude.Order.{lt_wf}
use esp_clock_sync.Prelude.Int.{ℤ, pos, negsuc}

-- The code points of a literal.
abbrev pub codes : String → List ℕ
codes String.[] = []
codes (String.◌∷◌ c s) = code c ∷ codes s

tenth_lt : (n : ℕ) → ¬ (n < 10) → n / 10 < n
tenth_lt n h = omega arith

-- `{}` of an unsigned number: its digits in base ten.
decimal_digits : (n : ℕ) → Acc ◌<◌ n → List ℕ
decimal_digits n (Acc.intro _ smaller) =
    dite (dec_lt n 10) (λ h. (b'0' + n) ∷ [])
      (λ h. decimal_digits (n / 10) (smaller (n / 10) (tenth_lt n h)) ++ ((b'0' + n % 10) ∷ []))

unfoldable pub decimal : ℕ → List ℕ
unfolding decimal_digits tenth_lt
decimal n = decimal_digits n (lt_wf.apply n)

-- `{}` of a signed number.
abbrev pub decimal_signed : ℤ → List ℕ
decimal_signed (pos n) = decimal n
decimal_signed (negsuc n) = b'-' ∷ decimal (n + 1)

-- One digit of `{:x}`, and `{:02x}` of a byte.
abbrev pub hex_digit : ℕ → ℕ
hex_digit d = if ltb d 10 then b'0' + d else b'a' + d - 10

abbrev pub hex_byte : ℕ → List ℕ
hex_byte b = hex_digit (b / 16) ∷ hex_digit (b % 16) ∷ []

-- The bytes of a code point in UTF-8.
unfoldable pub encode_utf8 : ℕ → List ℕ
encode_utf8 c =
    if ltb c 0x80
    then c ∷ []
    else if ltb c 0x800
    then (0xc0 + c / 2 ^ 6) ∷ (0x80 + c % 2 ^ 6) ∷ []
    else if ltb c 0x10000
    then (0xe0 + c / 2 ^ 12) ∷ (0x80 + c / 2 ^ 6 % 2 ^ 6) ∷ (0x80 + c % 2 ^ 6) ∷ []
    else (0xf0 + c / 2 ^ 18)
      ∷ (0x80 + c / 2 ^ 12 % 2 ^ 6)
      ∷ (0x80 + c / 2 ^ 6 % 2 ^ 6)
      ∷ (0x80 + c % 2 ^ 6)
      ∷ []

-- `String::as_bytes`
abbrev pub as_bytes : List ℕ → List ℕ
as_bytes [] = []
as_bytes (c ∷ cs) = encode_utf8 c ++ as_bytes cs

-- `char::to_digit`
unfoldable pub to_digit : ℕ → ℕ → Option ℕ
to_digit radix c =
    let d =
      if leb b'0' c && leb c b'9'
      then c - b'0'
      else if leb b'a' c && leb c b'z'
      then c - b'a' + 10
      else if leb b'A' c && leb c b'Z'
      then c - b'A' + 10
      else radix in
    if ltb d radix then some d else none

-- The digits of a number of `w` bits behind the value `n`: none on another character or overflow.
unfoldable pub scan_digits : ℕ → ℕ → ℕ → List ℕ → Option ℕ
scan_digits radix w n [] = some n
scan_digits radix w n (c ∷ cs) = and_then (to_digit radix c) λ d.
    let rest = scan_digits radix w (n * radix + d) cs in
    if ltb (n * radix + d) (2 ^ w) then rest else none

-- `from_str_radix` of an unsigned type, as an option: at least one digit, and a `+` before it.
unfoldable pub from_str_radix : ℕ → ℕ → List ℕ → Option ℕ
from_str_radix radix w [] = none
from_str_radix radix w (c ∷ []) = scan_digits radix w 0 (c ∷ [])
from_str_radix radix w (c ∷ d ∷ cs) =
    scan_digits radix w 0 (if c == b'+' then d ∷ cs else c ∷ d ∷ cs)

-- `char::is_whitespace`
unfoldable pub is_whitespace : ℕ → Bool
is_whitespace c =
    leb 9 c && leb c 13
    || c == 32
    || c == 0x85
    || c == 0xA0
    || c == 0x1680
    || leb 0x2000 c && leb c 0x200A
    || c == 0x2028
    || c == 0x2029
    || c == 0x202F
    || c == 0x205F
    || c == 0x3000

abbrev pub is_empty {ℓ} : {A : Type ℓ} → List A → Bool
is_empty [] = true
is_empty (x ∷ xs) = false

-- `split_whitespace`, with the word that has begun.
unfoldable pub split_words : List ℕ → List ℕ → List (List ℕ)
split_words word [] = if is_empty word then [] else word ∷ []
split_words word (c ∷ cs) =
    let rest = split_words (if is_whitespace c then [] else word ++ c ∷ []) cs in
    if is_whitespace c && not (is_empty word) then word ∷ rest else rest

unfoldable pub split_whitespace : List ℕ → List (List ℕ)
unfolding split_words
split_whitespace cs = split_words [] cs

abbrev push_front : ℕ → List ℕ × List ℕ → List ℕ × List ℕ
push_front c (before, after) = (c ∷ before, after)

-- `split_once`, at the first `sep`.
unfoldable pub split_once : ℕ → List ℕ → Option (List ℕ × List ℕ)
split_once sep [] = none
split_once sep (c ∷ cs) =
    let rest = split_once sep cs in
    if c == sep then some ([], cs) else and_then rest λ parts. some (push_front c parts)

-- `split`, at each `sep`, with the part that has begun.
unfoldable pub split_parts : ℕ → List ℕ → List ℕ → List (List ℕ)
split_parts sep part [] = part ∷ []
split_parts sep part (c ∷ cs) =
    let rest = split_parts sep (if c == sep then [] else part ++ c ∷ []) cs in
    if c == sep then part ∷ rest else rest

unfoldable pub split : ℕ → List ℕ → List (List ℕ)
unfolding split_parts
split sep cs = split_parts sep [] cs

unfoldable pub strip_prefix : List ℕ → List ℕ → Option (List ℕ)
strip_prefix [] cs = some cs
strip_prefix (p ∷ ps) [] = none
strip_prefix (p ∷ ps) (c ∷ cs) = if p == c then strip_prefix ps cs else none
