-- ===== src/TestRig/Bssid.antt =====
-- A BSSID that was printed is parsed, and what is parsed has six bytes.
use esp_clock_sync.Prelude.{
  ℕ, suc, ◌/◌, ◌%◌, ◌<◌, ◌≡◌, refl, ap, arith, List, [], ◌∷◌, map, some, All, length,
}
use esp_clock_sync.Text.{hex_digit, hex_byte, to_digit, scan_digits, from_str_radix}
use esp_clock_sync.Text.Split.{IsPart, join_by, split-join_by}
use esp_clock_sync.TestRig.{parse_bytes, parse_bssid}

-- Six bytes as the client prints them.
abbrev pub bssid_text : List ℕ → List ℕ
bssid_text bytes = join_by b':' (map hex_byte bytes)

to_digit-hex_digit : (d : ℕ) → d < 16 → to_digit 16 (hex_digit d) ≡ some d
unfolding to_digit
to_digit-hex_digit d h = ground arith

from_str_radix-hex_byte : (b : ℕ) → b < 256 → from_str_radix 16 8 (hex_byte b) ≡ some b
unfolding from_str_radix scan_digits
from_str_radix-hex_byte b h =
    ground
      (arith, to_digit-hex_digit (b / 16) (omega arith), to_digit-hex_digit (b % 16) (omega arith))

hex_byte-IsPart : (b : ℕ) → b < 256 → IsPart b':' (hex_byte b)
hex_byte-IsPart b h = (ground arith, (ground arith, tt))

parts-IsPart : (bytes : List ℕ) → All (λ b. b < 256) bytes → All (IsPart b':') (map hex_byte bytes)
parts-IsPart [] h = tt
parts-IsPart (b ∷ bytes) h = (hex_byte-IsPart b h.0, parts-IsPart bytes h.1)

parse_bytes-hex_byte :
    (bytes : List ℕ) → All (λ b. b < 256) bytes → parse_bytes (map hex_byte bytes) ≡ some bytes
unfolding parse_bytes
parse_bytes-hex_byte [] h = refl
parse_bytes-hex_byte (b ∷ bytes) h =
    rw (from_str_radix-hex_byte b h.0, parse_bytes-hex_byte bytes h.1) refl

length-map : (bytes : List ℕ) → length (map hex_byte bytes) ≡ length bytes
length-map [] = refl
length-map (b ∷ bytes) = ap suc (length-map bytes)

-- Six bytes that were printed in hexadecimal with colons between them are parsed to themselves.
pub parse_bssid-bssid_text :
    (bytes : List ℕ)
    → All (λ b. b < 256) bytes
    → length bytes ≡ 6
    → parse_bssid (bssid_text bytes) ≡ some bytes
unfolding parse_bssid
parse_bssid-bssid_text [] h six = absurd (omega arith)
parse_bssid-bssid_text (b ∷ bytes) h six =
    rw
      (
        split-join_by b':' (hex_byte b) (map hex_byte bytes) (parts-IsPart (b ∷ bytes) h),
        parse_bytes-hex_byte (b ∷ bytes) h,
      )
      (let len = length-map bytes in ground arith)
