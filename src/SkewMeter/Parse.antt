-- ===== src/SkewMeter/Parse.antt =====
-- crates/skew-meter/src/main.rs, `parse_line`.
use esp_clock_sync.Prelude.{ℕ, List, [], ◌∷◌, Option, none, some, if◌then◌else◌, and_then}
use esp_clock_sync.Packet.{bytes_eq}
use esp_clock_sync.Text.{codes, from_str_radix, split_whitespace, split_once, strip_prefix}
use esp_clock_sync.SkewMeter.{Event, tx, rx}

-- The variables of the loops over the words.
pub record Fields : Type 0 where
  pub mac : Option (List ℕ)
  pub seq : Option ℕ
  pub synced_ns : Option ℕ

abbrev pub no_fields : Fields
no_fields = record { mac = none; seq = none; synced_ns = none }

-- The match on a key in a line of a sent edge.
unfoldable pub tx_field : Fields → List ℕ → List ℕ → Fields
tx_field f k v =
    if bytes_eq k (codes "mac")
    then record f { mac = some v }
    else if bytes_eq k (codes "seq")
    then record f { seq = from_str_radix 10 32 v }
    else if bytes_eq k (codes "synced_ns")
    then record f { synced_ns = from_str_radix 10 128 v }
    else f

-- The match on a key in a line of a received edge.
unfoldable pub rx_field : Fields → List ℕ → List ℕ → Fields
rx_field f k v =
    if bytes_eq k (codes "mac")
    then record f { mac = some v }
    else if bytes_eq k (codes "synced_ns")
    then (if bytes_eq v (codes "NONE") then f else record f { synced_ns = from_str_radix 10 128 v })
    else f

-- The loop over the words, which ends the function at a word with no `=`.
unfoldable pub read_fields :
    (Fields → List ℕ → List ℕ → Fields) → Fields → List (List ℕ) → Option Fields
read_fields field f [] = some f
read_fields field f (kv ∷ kvs) =
    and_then (split_once b'=' kv) λ parts. read_fields field (field f parts.0 parts.1) kvs

unfoldable pub tx_event : ℕ → Fields → Option Event
tx_event device f = and_then f.mac λ mac.
    and_then f.seq λ seq. and_then f.synced_ns λ synced_ns. some (tx device mac seq synced_ns)

unfoldable pub rx_event : ℕ → Fields → Option Event
rx_event device f =
    and_then f.mac λ mac. and_then f.synced_ns λ synced_ns. some (rx device mac synced_ns)

unfoldable pub parse_rx : ℕ → Option (List ℕ) → Option Event
parse_rx device none = none
parse_rx device (some rest) =
    and_then (read_fields rx_field no_fields (split_whitespace rest)) (rx_event device)

unfoldable pub parse_tx : ℕ → List ℕ → Option (List ℕ) → Option Event
parse_tx device line none = parse_rx device (strip_prefix (codes "pulse_rx ") line)
parse_tx device line (some rest) =
    and_then (read_fields tx_field no_fields (split_whitespace rest)) (tx_event device)

unfoldable pub parse_line : ℕ → List ℕ → Option Event
parse_line device line = parse_tx device line (strip_prefix (codes "pulse_tx ") line)
