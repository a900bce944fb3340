-- ===== src/TestRig/Pipeline.antt =====
-- From the lines that two boards print to the events that the skew meter hears.
use esp_clock_sync.Prelude.{
  ℕ, ◌^◌, ◌≤◌, ◌<◌, ◌≡◌, refl, ap, ◌∙◌, arith, List, [], ◌∷◌, ◌++◌, map, Option, none, some,
  and_then, All, All-map,
}
use esp_clock_sync.Text.{codes, strip_prefix}
use esp_clock_sync.SkewMeter.{Event, tx, rx}
use esp_clock_sync.SkewMeter.Parse.{parse_line, parse_tx, parse_rx}
use esp_clock_sync.SkewMeter.Reader.{sends, reader}
use esp_clock_sync.TestRig.{Mac, mac_text, pulse_tx_line, pulse_rx_line}
use esp_clock_sync.TestRig.Lines.{IsClean, IsMac, parse_line-pulse_tx_line}
use esp_clock_sync.TestRig.Received.{listed, parse_line-pulse_rx_line}

-- What a port yields: the line of a sent or of a received edge, some other line, or an error.
pub data Output : Type 0 where
  sent : (seq synced_ns target_ns cap_us : ℕ) → Output
  received : (port : List ℕ) (synced_ns : Option ℕ) (cap_us : ℕ) → Output
  other : (text : List ℕ) → Output
  unread : Output

abbrev pub read : Mac → Output → Option (List ℕ)
read m (sent seq synced_ns target_ns cap_us) = some (pulse_tx_line m seq synced_ns target_ns cap_us)
read m (received port synced_ns cap_us) = some (pulse_rx_line port m synced_ns cap_us)
read m (other text) = some text
read m unread = none

-- The edges of what a board prints, received ones where their time was known.
abbrev pub edge : ℕ → Mac → Output → List Event
edge device m (sent seq synced_ns target_ns cap_us) = tx device (mac_text m) seq synced_ns ∷ []
edge device m (received port synced_ns cap_us) =
    sends (and_then synced_ns (λ ns. some (rx device (mac_text m) ns)))
edge device m (other text) = []
edge device m unread = []

unfoldable pub edges : ℕ → Mac → List Output → List Event
edges device m [] = []
edges device m (o ∷ os) = edge device m o ++ edges device m os

-- What the test rig prints behind an edge sent at `last`: numbers of 32 bits, times below 2^126 ns and
-- the sent ones in their order, names of ports with no white space, and other lines that have
-- neither prefix.
abbrev pub IsPrinted : ℕ → List Output → Type 0
IsPrinted last [] = Unit
IsPrinted last (sent seq synced_ns target_ns cap_us ∷ os) =
    (seq < 2 ^ 32) × (last ≤ synced_ns) × (synced_ns < 2 ^ 126) × IsPrinted synced_ns os
IsPrinted last (received port synced_ns cap_us ∷ os) =
    IsClean port × All (λ ns. ns < 2 ^ 126) (listed synced_ns) × IsPrinted last os
IsPrinted last (other text ∷ os) =
    (strip_prefix (codes "pulse_tx ") text ≡ none)
    × (strip_prefix (codes "pulse_rx ") text ≡ none)
    × IsPrinted last os
IsPrinted last (unread ∷ os) = IsPrinted last os

parse_line-other :
    (device : ℕ) (text : List ℕ)
    → strip_prefix (codes "pulse_tx ") text ≡ none
    → strip_prefix (codes "pulse_rx ") text ≡ none
    → parse_line device text ≡ none
unfolding parse_line parse_tx parse_rx
parse_line-other device text h k = ap (parse_tx device text) h ∙ ap (parse_rx device) k

-- The reader of a board sends exactly the edges that the board printed.
pub reader-edges :
    (device last : ℕ) (m : Mac) (os : List Output)
    → IsMac m
    → IsPrinted last os
    → reader device (map (read m) os) ≡ edges device m os
unfolding reader edges
reader-edges device last m [] v h = refl
reader-edges device last m (sent seq synced_ns target_ns cap_us ∷ os) v (hs, le, hn, h) =
    rw
      (
        parse_line-pulse_tx_line device m seq synced_ns target_ns cap_us v hs (omega arith),
        reader-edges device synced_ns m os v h,
      )
      refl
reader-edges device last m (received port synced_ns cap_us ∷ os) v (clean, hn, h) =
    rw
      (
        parse_line-pulse_rx_line device port m synced_ns cap_us clean v (
            All-map (λ ns. ns < 2 ^ 126) (λ ns. ns < 2 ^ 128) (listed synced_ns)
              (λ ns k. omega arith) hn),
        reader-edges device last m os v h,
      )
      refl
reader-edges device last m (other text ∷ os) v (no_tx, no_rx, h) =
    rw (parse_line-other device text no_tx no_rx, reader-edges device last m os v h) refl
reader-edges device last m (unread ∷ os) v h = reader-edges device last m os v h
