-- ===== src/Firmware/Prompt.antt =====
-- What is typed at the prompt is what the board takes.
use mathlib.Core.List.{append_assoc, append-nil}
use esp_clock_sync.Prelude.{
  ℕ, ◌/◌, ◌<◌, ◌≡◌, refl, ap, ◌∙◌, arith, true, false, List, [], ◌∷◌, ◌++◌, map, some, All,
  All-append, All-map, length, length-append, ◌==◌, ltb, dec_lt,
}
use esp_clock_sync.Text.{decimal, is_whitespace, encode_utf8, as_bytes}
use esp_clock_sync.Text.Decimal.{
  IsDigit, decimal_small, decimal_large, decimal-IsDigit, from_str_radix-decimal,
}
use esp_clock_sync.Text.Split.{IsPart, join_by, split-join_by}
use esp_clock_sync.Firmware.{Reading, byte, edit, read_from}
use esp_clock_sync.Firmware.Address.{
  trim_start, trim_end, trim, are_digits, is_canonical, octet, octets, from_str, server_ip,
}
use esp_clock_sync.Firmware.Boot.{prompt}

-- An ASCII character that the line reader adds to the line.
abbrev pub IsPlain : ℕ → Type 0
IsPlain b =
    (b < 0x80)
    × ((b == 0x0a) ≡ false)
    × ((b == 0x0d) ≡ false)
    × ((b == 0x08) ≡ false)
    × ((b == 0x7f) ≡ false)

-- A line of the keyboard, with its line feed.
abbrev pub keys : List ℕ → List Reading → List Reading
keys cs rs = map byte cs ++ (byte 0x0a ∷ rs)

read_from-keys :
    (cs out : List ℕ) (rs : List Reading)
    → All IsPlain cs
    → read_from out (keys cs rs) ≡ some (out ++ cs, rs)
unfolding read_from edit
read_from-keys [] out rs h = rw append-nil refl
read_from-keys (c ∷ cs) out rs h =
    let (ascii, no_lf, no_cr, no_bs, no_del) = h.0 in
    let later = read_from-keys cs (out ++ c ∷ []) rs h.1 in
    rw (no_lf, no_cr, no_bs, no_del) (rw append_assoc at later)

abbrev IsText : List ℕ → Type 0
IsText cs = All (λ c. is_whitespace c ≡ false) cs

abbrev pub IsBlank : List ℕ → Type 0
IsBlank cs = All (λ c. is_whitespace c ≡ true) cs

trim_start-blank : (ws cs : List ℕ) → IsBlank ws → trim_start (ws ++ cs) ≡ trim_start cs
unfolding trim_start
trim_start-blank [] cs h = refl
trim_start-blank (w ∷ ws) cs h = rw h.0 (trim_start-blank ws cs h.1)

trim_end-blank : (ws : List ℕ) → IsBlank ws → trim_end ws ≡ []
unfolding trim_end
trim_end-blank [] h = refl
trim_end-blank (w ∷ ws) h = rw (h.0, trim_end-blank ws h.1) refl

trim_end-text : (cs ws : List ℕ) → IsText cs → IsBlank ws → trim_end (cs ++ ws) ≡ cs
unfolding trim_end
trim_end-text [] ws h k = trim_end-blank ws k
trim_end-text (c ∷ cs) ws h k = rw (h.0, trim_end-text cs ws h.1 k) refl

-- Blanks around a text are trimmed.
trim-text :
    (before cs after : List ℕ)
    → IsBlank before
    → IsText cs
    → 0 < length cs
    → IsBlank after
    → trim (before ++ (cs ++ after)) ≡ cs
unfolding trim trim_start
trim-text before [] after h k some_in l = absurd (omega arith)
trim-text before (c ∷ cs) after h k some_in l =
    ap trim_end (trim_start-blank before (c ∷ cs ++ after) h)
    ∙ rw k.0 (trim_end-text (c ∷ cs) after k l)

are_digits-IsDigit : (cs : List ℕ) → All IsDigit cs → are_digits cs ≡ true
unfolding are_digits
are_digits-IsDigit [] h = refl
are_digits-IsDigit (c ∷ cs) h = let d = h.0 in ground (arith, are_digits-IsDigit cs h.1)

is_canonical-decimal : (n : ℕ) → n < 256 → is_canonical (decimal n) ≡ true
unfolding is_canonical
is_canonical-decimal n h = elim (dec_lt n 10) [
  | yes one ↦ rw (decimal_small n one) refl
  | no more ↦ elim (dec_lt n 100) [
    | yes two ↦
        rw (decimal_large n (omega arith), decimal_small (n / 10) (omega arith)) (ground arith)
    | no three ↦
        rw
          (
            decimal_large n (omega arith),
            decimal_large (n / 10) (omega arith),
            decimal_small (n / 10 / 10) (omega arith),
          )
          (ground arith)
  ]
]

octet-decimal : (n : ℕ) → n < 256 → octet (decimal n) ≡ some n
octet-decimal n h =
    rw
      (
        are_digits-IsDigit (decimal n) (decimal-IsDigit n).0,
        is_canonical-decimal n h,
        from_str_radix-decimal 8 n (omega arith),
      )
      refl

octets-decimal : (bs : List ℕ) → All (λ b. b < 256) bs → octets (map decimal bs) ≡ some bs
unfolding octets
octets-decimal [] h = refl
octets-decimal (b ∷ bs) h = rw (octet-decimal b h.0, octets-decimal bs h.1) refl

decimal-IsPart : (n : ℕ) → IsPart b'.' (decimal n)
decimal-IsPart n =
    All-map IsDigit (λ c. (c == b'.') ≡ false) (decimal n) (λ c d. ground arith)
      (decimal-IsDigit n).0

-- Four bytes as they are typed, with points between them.
abbrev pub address_text : ℕ → ℕ → ℕ → ℕ → List ℕ
address_text a b c d = join_by b'.' (decimal a ∷ decimal b ∷ decimal c ∷ decimal d ∷ [])

from_str-address_text :
    (a b c d : ℕ)
    → All (λ n. n < 256) (a ∷ b ∷ c ∷ d ∷ [])
    → from_str (address_text a b c d) ≡ some (a ∷ b ∷ c ∷ d ∷ [])
unfolding from_str
from_str-address_text a b c d h =
    rw
      (split-join_by b'.' (decimal a) (decimal b ∷ decimal c ∷ decimal d ∷ [])
        (decimal-IsPart a, (decimal-IsPart b, (decimal-IsPart c, (decimal-IsPart d, tt)))))
      (octets-decimal (a ∷ b ∷ c ∷ d ∷ []) h)

-- What a digit and a point are to the line reader and to `trim`.
abbrev IsKey : ℕ → Type 0
IsKey c = IsPlain c × (is_whitespace c ≡ false)

IsKey-digit : (c : ℕ) → IsDigit c → IsKey c
unfolding is_whitespace
IsKey-digit c h =
    ((ground arith, ground arith, ground arith, ground arith, ground arith), ground arith)

IsKey-point : IsKey b'.'
unfolding is_whitespace
IsKey-point = ((omega arith, refl, refl, refl, refl), refl)

decimal-IsKey : (n : ℕ) → All IsKey (decimal n)
decimal-IsKey n = All-map IsDigit IsKey (decimal n) (λ c h. IsKey-digit c h) (decimal-IsDigit n).0

address_text-IsKey : (a b c d : ℕ) → All IsKey (address_text a b c d)
address_text-IsKey a b c d =
    let point : (n : ℕ) (cs : List ℕ) → All IsKey cs → All IsKey (decimal n ++ (b'.' ∷ cs)) =
      λ n cs h. All-append IsKey (decimal n) (b'.' ∷ cs) (decimal-IsKey n) (IsKey-point, h) in
    point a _ (point b _ (point c _ (decimal-IsKey d)))

-- Plain characters are their own bytes.
as_bytes-IsPlain : (cs : List ℕ) → All IsPlain cs → as_bytes cs ≡ cs
unfolding encode_utf8
as_bytes-IsPlain [] h = refl
as_bytes-IsPlain (c ∷ cs) h =
    let ascii = h.0.0 in
    let short : ltb c 0x80 ≡ true = ground arith in rw (short, as_bytes-IsPlain cs h.1) refl

-- A name, a password and an address of four bytes with blanks around it are typed in ASCII, each
-- without line feed, carriage return, backspace and DEL and with its line feed at the end: the board
-- takes the name and the password with the bytes that were typed, and the address as its four bytes.
pub prompt-keys :
    (ssid password before after : List ℕ) (a b c d : ℕ) (rs : List Reading)
    → All IsPlain ssid
    → All IsPlain password
    → All IsPlain before × IsBlank before
    → All IsPlain after × IsBlank after
    → All (λ n. n < 256) (a ∷ b ∷ c ∷ d ∷ [])
    → (prompt (keys ssid (keys password (keys (before ++ (address_text a b c d ++ after)) rs)))
        ≡ some
            (record { ssid = ssid; password = password; server = a ∷ b ∷ c ∷ d ∷ []; rest = rs }))
      × (as_bytes ssid ≡ ssid)
      × (as_bytes password ≡ password)
unfolding prompt server_ip
prompt-keys ssid password before after a b c d rs hs hp (pb, blank_b) (pa, blank_a) h =
    let text = address_text a b c d in
    let key = address_text-IsKey a b c d in
    let plain : All IsPlain (before ++ (address_text a b c d ++ after)) =
      All-append IsPlain before (address_text a b c d ++ after) pb (
        All-append IsPlain (address_text a b c d) after
          (All-map IsKey IsPlain (address_text a b c d) (λ e k. k.0) key) pa) in
    let shown : IsText (address_text a b c d) =
      All-map IsKey (λ e. is_whitespace e ≡ false) (address_text a b c d) (λ e k. k.1) key in
    let long : 0 < length (address_text a b c d) = omega (
      arith,
      (decimal-IsDigit a).1,
      length-append (decimal a) (b'.' ∷ join_by b'.' (decimal b ∷ decimal c ∷ decimal d ∷ [])),
    ) in
    (
      rw
          (
            read_from-keys ssid [] _ hs,
            read_from-keys password [] _ hp,
            read_from-keys (before ++ (address_text a b c d ++ after)) [] rs plain,
            trim-text before (address_text a b c d) after blank_b shown long blank_a,
            from_str-address_text a b c d h,
          )
          refl,
      as_bytes-IsPlain ssid hs,
      as_bytes-IsPlain password hp,
    )
