-- ===== src/Client/Tsf.antt =====
-- The reconstruction of a 64-bit time from its 32 low bits and a later reading.
use esp_clock_sync.Prelude.{ℕ, ◌+◌, ◌-◌, ◌%◌, ◌^◌, ◌≤◌, ◌<◌, ◌≡◌, ◌⊎◌, inl, inr, arith, dec_le}
use esp_clock_sync.Client.{own_tsf_us}

pub own_tsf_us-low_bits :
    (received reading : ℕ)
    → received ≤ reading
    → reading < received + 2 ^ 32
    → reading < 2 ^ 64
    → own_tsf_us reading (received % 2 ^ 32) ≡ received
unfolding own_tsf_us
own_tsf_us-low_bits received reading p q r = ground arith

-- For every reading of 64 bits and timestamp of 32 bits: the result has the timestamp as its 32 low
-- bits, and it is the latest such time up to the reading, so that it is a receive time less than 2^32
-- µs before it with these low bits, where there is one of the same clock. Only where the reading is
-- below the timestamp there is no such time, and the result is in the last 2^32 µs below 2^64.
pub own_tsf_us-IsLatest :
    (reading timestamp : ℕ)
    → reading < 2 ^ 64
    → timestamp < 2 ^ 32
    → (own_tsf_us reading timestamp % 2 ^ 32 ≡ timestamp)
      × (((own_tsf_us reading timestamp ≤ reading)
            × (reading < own_tsf_us reading timestamp + 2 ^ 32))
          ⊎ ((reading < timestamp) × (own_tsf_us reading timestamp ≡ 2 ^ 64 - 2 ^ 32 + timestamp)))
unfolding own_tsf_us
own_tsf_us-IsLatest reading timestamp p q = elim (dec_le timestamp reading) [
  | yes h ↦ (ground arith, inl (ground arith, ground arith))
  | no h ↦ (ground arith, inr (omega arith, ground arith))
]
