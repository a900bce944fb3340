-- ===== src/Firmware/Address.antt =====
-- crates/clock-sync-firmware/src/main.rs, the address of the server in `main`: `trim` and
-- `Ipv4Addr::from_str` of Rust's library, and the fallback. An address is its four bytes.
use mathlib.Core.Bool.{not}
use esp_clock_sync.Prelude.{
  ℕ, Bool, true, ◌&&◌, List, [], ◌∷◌, Option, none, some, leb, ◌==◌, if◌then◌else◌, length,
  and_then, unwrap_or,
}
use esp_clock_sync.Text.{is_whitespace, is_empty, split, from_str_radix}

unfoldable pub trim_start : List ℕ → List ℕ
trim_start [] = []
trim_start (c ∷ cs) = let rest = trim_start cs in if is_whitespace c then rest else c ∷ cs

unfoldable pub trim_end : List ℕ → List ℕ
trim_end [] = []
trim_end (c ∷ cs) =
    let rest = trim_end cs in if is_whitespace c && is_empty rest then [] else c ∷ rest

unfoldable pub trim : List ℕ → List ℕ
trim cs = trim_end (trim_start cs)

unfoldable pub are_digits : List ℕ → Bool
are_digits [] = true
are_digits (c ∷ cs) = leb b'0' c && leb c b'9' && are_digits cs

-- A number of an address has no zero before its other digits.
unfoldable pub is_canonical : List ℕ → Bool
is_canonical [] = true
is_canonical (c ∷ []) = true
is_canonical (c ∷ d ∷ cs) = not (c == b'0')

abbrev pub octet : List ℕ → Option ℕ
octet p = if are_digits p && is_canonical p then from_str_radix 10 8 p else none

unfoldable pub octets : List (List ℕ) → Option (List ℕ)
octets [] = some []
octets (p ∷ ps) = and_then (octet p) λ b. and_then (octets ps) λ bs. some (b ∷ bs)

-- `Ipv4Addr::from_str`
unfoldable pub from_str : List ℕ → Option (List ℕ)
from_str s = let parts = split b'.' s in if length parts == 4 then octets parts else none

abbrev pub unspecified : List ℕ
unspecified = 0 ∷ 0 ∷ 0 ∷ 0 ∷ []

unfoldable pub server_ip : List ℕ → List ℕ
server_ip server_str = unwrap_or (from_str (trim server_str)) unspecified

-- `is_unspecified`
unfoldable pub is_unspecified : List ℕ → Bool
is_unspecified [] = true
is_unspecified (b ∷ bs) = b == 0 && is_unspecified bs
