-- ===== src/TestRig/Received.antt =====
-- The skew meter reads back the lines of received edges.
use esp_clock_sync.Prelude.{
  ℕ, ◌^◌, ◌<◌, ◌≡◌, refl, ◌∙◌, List, [], ◌∷◌, Option, none, some, and_then, All, length, arith,
  false,
}
use esp_clock_sync.Text.{codes, decimal, is_whitespace, strip_prefix}
use esp_clock_sync.Text.Decimal.{IsDigit, decimal-IsDigit, from_str_radix-decimal}
use esp_clock_sync.Text.Split.{IsWord, split_whitespace-join}
use esp_clock_sync.Packet.{bytes_eq}
use esp_clock_sync.SkewMeter.{rx}
use esp_clock_sync.SkewMeter.Parse.{
  no_fields, rx_field, read_fields, rx_event, parse_tx, parse_rx, parse_line,
}
use esp_clock_sync.TestRig.{Mac, mac_text, pulse_rx_line, synced_text}
use esp_clock_sync.TestRig.Lines.{
  IsClean, pair, IsMac, pair-IsWord, read_fields-pair, mac_text-IsClean, decimal-IsClean,
}

-- The number, where there is one.
abbrev pub listed : Option ℕ → List ℕ
listed none = []
listed (some n) = n ∷ []

abbrev rx_words : List ℕ → Mac → Option ℕ → ℕ → List (List ℕ)
rx_words port m synced_ns cap_us =
    pair (codes "port") port
    ∷ pair (codes "mac") (mac_text m)
    ∷ pair (codes "synced_ns") (synced_text synced_ns)
    ∷ pair (codes "cap_us") (decimal cap_us)
    ∷ []

synced_text-IsClean : (o : Option ℕ) → IsClean (synced_text o)
unfolding is_whitespace
synced_text-IsClean none = (refl, (refl, (refl, (refl, tt))))
synced_text-IsClean (some ns) = decimal-IsClean ns

rx_words-IsWord :
    (port : List ℕ) (m : Mac) (synced_ns : Option ℕ) (cap_us : ℕ)
    → IsClean port
    → IsMac m
    → All IsWord (rx_words port m synced_ns cap_us)
unfolding is_whitespace
rx_words-IsWord port m synced_ns cap_us clean v = (
  pair-IsWord (codes "port") port refl clean,
  (
    pair-IsWord (codes "mac") (mac_text m) refl (mac_text-IsClean m v),
    (
      pair-IsWord (codes "synced_ns") (synced_text synced_ns) refl (synced_text-IsClean synced_ns),
      (pair-IsWord (codes "cap_us") (decimal cap_us) refl (decimal-IsClean cap_us), tt),
    ),
  ),
)

-- A number is not the text NONE.
decimal_not_none : (n : ℕ) → bytes_eq (decimal n) (codes "NONE") ≡ false
decimal_not_none n = not_none (decimal n) (decimal-IsDigit n).0 (decimal-IsDigit n).1
  where
    not_none : (cs : List ℕ) → All IsDigit cs → 0 < length cs → bytes_eq cs (codes "NONE") ≡ false
    not_none [] h k = absurd (omega arith)
    not_none (c ∷ cs) h k = let d = h.0 in ground arith

read_rx_words :
    (port : List ℕ) (m : Mac) (synced_ns : Option ℕ) (cap_us : ℕ)
    → All (λ ns. ns < 2 ^ 128) (listed synced_ns)
    → read_fields rx_field no_fields (rx_words port m synced_ns cap_us)
      ≡ some (record { mac = some (mac_text m); seq = none; synced_ns = synced_ns })
unfolding rx_field is_whitespace
read_rx_words port m none cap_us h =
    read_fields-pair rx_field no_fields (codes "port") port _ refl
    ∙ read_fields-pair rx_field _ (codes "mac") (mac_text m) _ refl
    ∙ read_fields-pair rx_field _ (codes "synced_ns") (codes "NONE") _ refl
    ∙ read_fields-pair rx_field _ (codes "cap_us") (decimal cap_us) _ refl
    ∙ unfold read_fields in refl
read_rx_words port m (some ns) cap_us h =
    read_fields-pair rx_field no_fields (codes "port") port _ refl
    ∙ read_fields-pair rx_field _ (codes "mac") (mac_text m) _ refl
    ∙ read_fields-pair rx_field _ (codes "synced_ns") (decimal ns) _ refl
    ∙ read_fields-pair rx_field _ (codes "cap_us") (decimal cap_us) _ refl
    ∙ rw (decimal_not_none ns, from_str_radix-decimal 128 ns h.0) (unfold read_fields in refl)

-- The line of a received edge is read back as that edge where the synced time was known, and is
-- skipped where NONE was printed. The name of the port is any text with no white space.
pub parse_line-pulse_rx_line :
    (device : ℕ) (port : List ℕ) (m : Mac) (synced_ns : Option ℕ) (cap_us : ℕ)
    → IsClean port
    → IsMac m
    → All (λ ns. ns < 2 ^ 128) (listed synced_ns)
    → parse_line device (pulse_rx_line port m synced_ns cap_us)
      ≡ and_then synced_ns (λ ns. some (rx device (mac_text m) ns))
unfolding parse_line parse_tx parse_rx rx_event strip_prefix
parse_line-pulse_rx_line device port m synced_ns cap_us clean v h =
    rw
      (
        split_whitespace-join (rx_words port m synced_ns cap_us)
            (rx_words-IsWord port m synced_ns cap_us clean v),
        read_rx_words port m synced_ns cap_us h,
      )
      refl
