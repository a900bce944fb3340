-- ===== src/TestRig/Lines.antt =====
-- The skew meter reads back what the boards print.
use esp_clock_sync.Prelude.{
  ℕ, ◌/◌, ◌%◌, ◌^◌, ◌<◌, ◌≡◌, refl, ap, ◌∙◌, arith, Bool, true, false, ◌&&◌, List, [], ◌∷◌, ◌++◌,
  some, ◌==◌, if◌then◌else◌, All, All-append, All-map, length-append,
}
use esp_clock_sync.Text.{codes, decimal, hex_digit, is_whitespace, split_once}
use esp_clock_sync.Text.Decimal.{IsDigit, decimal-IsDigit, from_str_radix-decimal}
use esp_clock_sync.Text.Split.{
  IsWord, join, split_whitespace-join, split_once-pair, strip_prefix-append,
}
use esp_clock_sync.SkewMeter.{tx}
use esp_clock_sync.SkewMeter.Parse.{
  Fields, no_fields, tx_field, read_fields, tx_event, parse_tx, parse_line,
}
use esp_clock_sync.TestRig.{Mac, mac_text, pulse_tx_line}

abbrev pub IsClean : List ℕ → Type 0
IsClean cs = All (λ c. is_whitespace c ≡ false) cs

abbrev pub pair : List ℕ → List ℕ → List ℕ
pair key value = key ++ (b'=' ∷ value)

is_whitespace-digit : (c : ℕ) → IsDigit c → is_whitespace c ≡ false
unfolding is_whitespace
is_whitespace-digit c h = ground arith

pub decimal-IsClean : (n : ℕ) → IsClean (decimal n)
decimal-IsClean n =
    All-map IsDigit (λ c. is_whitespace c ≡ false) (decimal n) (λ c h. is_whitespace-digit c h)
      (decimal-IsDigit n).0

pub is_whitespace-hex_digit : (d : ℕ) → d < 16 → is_whitespace (hex_digit d) ≡ false
unfolding is_whitespace
is_whitespace-hex_digit d h = ground arith

-- Three bytes.
pub record IsMac (m : Mac) : Type 0 where
  pub b0 : m.b0 < 256
  pub b1 : m.b1 < 256
  pub b2 : m.b2 < 256

is_whitespace_colon : is_whitespace b':' ≡ false
unfolding is_whitespace
is_whitespace_colon = refl

pub mac_text-IsClean : (m : Mac) → IsMac m → IsClean (mac_text m)
mac_text-IsClean m v =
    let byte : (b : ℕ)
        → b < 256
        → (is_whitespace (hex_digit (b / 16)) ≡ false)
          × (is_whitespace (hex_digit (b % 16)) ≡ false) =
      λ b h. (
        is_whitespace-hex_digit (b / 16) (omega arith),
        is_whitespace-hex_digit (b % 16) (omega arith),
      ) in
    let x = byte m.b0 v.b0 in
    let y = byte m.b1 v.b1 in
    let z = byte m.b2 v.b2 in
    (x.0, (x.1, (is_whitespace_colon, (y.0, (y.1, (is_whitespace_colon, (z.0, (z.1, tt))))))))

is_whitespace_equals : is_whitespace b'=' ≡ false
unfolding is_whitespace
is_whitespace_equals = refl

-- A key has neither white space nor `=`.
abbrev pub is_key : List ℕ → Bool
is_key [] = true
is_key (c ∷ cs) =
    (if is_whitespace c then false else if c == b'=' then false else true) && is_key cs

is_key-IsClean :
    (key : List ℕ) → is_key key ≡ true → IsClean key × All (λ c. (c == b'=') ≡ false) key
is_key-IsClean [] h = (tt, tt)
is_key-IsClean (c ∷ cs) h =
    let rest = is_key-IsClean cs (ground arith) in ((ground arith, rest.0), (ground arith, rest.1))

pub pair-IsWord : (key value : List ℕ) → is_key key ≡ true → IsClean value → IsWord (pair key value)
pair-IsWord key value h k = (
  omega (arith, length-append key (b'=' ∷ value)),
  All-append (λ c. is_whitespace c ≡ false) key (b'=' ∷ value) (is_key-IsClean key h).0
      (is_whitespace_equals, k),
)

split_once-key :
    (key value : List ℕ) → is_key key ≡ true → split_once b'=' (pair key value) ≡ some (key, value)
split_once-key key value h = split_once-pair b'=' key value (is_key-IsClean key h).1

-- One round of the loop over the words.
pub read_fields-pair :
    (field : Fields → List ℕ → List ℕ → Fields) (f : Fields) (key value : List ℕ)
    (kvs : List (List ℕ))
    → is_key key ≡ true
    → read_fields field f (pair key value ∷ kvs) ≡ read_fields field (field f key value) kvs
unfolding read_fields
read_fields-pair field f key value kvs h = rw (split_once-key key value h) refl

-- The words of a line of a sent edge.
abbrev tx_words : Mac → ℕ → ℕ → ℕ → ℕ → List (List ℕ)
tx_words m seq synced_ns target_ns cap_us =
    pair (codes "mac") (mac_text m)
    ∷ pair (codes "seq") (decimal seq)
    ∷ pair (codes "synced_ns") (decimal synced_ns)
    ∷ pair (codes "target_ns") (decimal target_ns)
    ∷ pair (codes "cap_us") (decimal cap_us)
    ∷ []

tx_words-IsWord :
    (m : Mac) (seq synced_ns target_ns cap_us : ℕ)
    → IsMac m
    → All IsWord (tx_words m seq synced_ns target_ns cap_us)
unfolding is_whitespace
tx_words-IsWord m seq synced_ns target_ns cap_us v = (
  pair-IsWord (codes "mac") (mac_text m) refl (mac_text-IsClean m v),
  (
    pair-IsWord (codes "seq") (decimal seq) refl (decimal-IsClean seq),
    (
      pair-IsWord (codes "synced_ns") (decimal synced_ns) refl (decimal-IsClean synced_ns),
      (
        pair-IsWord (codes "target_ns") (decimal target_ns) refl (decimal-IsClean target_ns),
        (pair-IsWord (codes "cap_us") (decimal cap_us) refl (decimal-IsClean cap_us), tt),
      ),
    ),
  ),
)

read_tx_words :
    (m : Mac) (seq synced_ns target_ns cap_us : ℕ)
    → seq < 2 ^ 32
    → synced_ns < 2 ^ 128
    → read_fields tx_field no_fields (tx_words m seq synced_ns target_ns cap_us)
      ≡ some (record { mac = some (mac_text m); seq = some seq; synced_ns = some synced_ns })
unfolding tx_field is_whitespace
read_tx_words m seq synced_ns target_ns cap_us hs hn =
    read_fields-pair tx_field no_fields (codes "mac") (mac_text m) _ refl
    ∙ read_fields-pair tx_field _ (codes "seq") (decimal seq) _ refl
    ∙ read_fields-pair tx_field _ (codes "synced_ns") (decimal synced_ns) _ refl
    ∙ read_fields-pair tx_field _ (codes "target_ns") (decimal target_ns) _ refl
    ∙ read_fields-pair tx_field _ (codes "cap_us") (decimal cap_us) _ refl
    ∙ rw (from_str_radix-decimal 32 seq hs, from_str_radix-decimal 128 synced_ns hn)
        (unfold read_fields in refl)

-- The line that the pulser prints for an edge is read back as that edge, with the number and the
-- synced time that were printed.
pub parse_line-pulse_tx_line :
    (device : ℕ) (m : Mac) (seq synced_ns target_ns cap_us : ℕ)
    → IsMac m
    → seq < 2 ^ 32
    → synced_ns < 2 ^ 128
    → parse_line device (pulse_tx_line m seq synced_ns target_ns cap_us)
      ≡ some (tx device (mac_text m) seq synced_ns)
unfolding parse_line parse_tx tx_event
parse_line-pulse_tx_line device m seq synced_ns target_ns cap_us v hs hn =
    ap (parse_tx device (pulse_tx_line m seq synced_ns target_ns cap_us))
      (strip_prefix-append (codes "pulse_tx ") (join (tx_words m seq synced_ns target_ns cap_us)))
    ∙ rw
        (
          split_whitespace-join (tx_words m seq synced_ns target_ns cap_us)
              (tx_words-IsWord m seq synced_ns target_ns cap_us v),
          read_tx_words m seq synced_ns target_ns cap_us hs hn,
        )
        refl
