-- ===== src/Server.antt =====
-- crates/clock-sync-server/src/main.rs: the sequence of packets that the server broadcasts. What
-- a round sends is its packet; when it sends is in Timing, and what comes before the loop in Setup.
pub mod Schedule
pub mod Timing
pub mod Setup
mod Tests
use esp_clock_sync.Prelude.{
  ℕ, zero, suc, ◌+◌, ◌*◌, ◌%◌, ◌^◌, List, [], ◌∷◌, Option, Exec, ret, ◌>>=◌,
}
use esp_clock_sync.Prelude.Words.{checked_u}
use esp_clock_sync.Packet.{SyncPacket, magic, to_bytes}

-- An address is its number of 32 bits, and the name of an interface a list of bytes.
pub record Cli : Type 0 where
  pub interval_ms : ℕ
  pub port : ℕ
  pub broadcast_addr : ℕ
  pub bind_iface : Option (List ℕ)

-- `t0 + (seq as u128) * interval_ns`, as the payload of the packet `seq`.
unfoldable pub packet : ℕ → ℕ → ℕ → Exec SyncPacket
packet t0 interval_ns seq = do
  elapsed ← checked_u 128 (seq * interval_ns)
  send_unix_ns ← checked_u 128 (t0 + elapsed)
  ret (record { magic = magic; seq = seq; send_unix_ns = send_unix_ns })

-- `k` rounds of the loop from the number `seq` on: the datagrams, in order.
unfoldable pub rounds : ℕ → ℕ → ℕ → ℕ → Exec (List (List ℕ))
rounds t0 interval_ns zero seq = ret []
rounds t0 interval_ns (suc k) seq = do
  pkt ← packet t0 interval_ns seq
  rest ← rounds t0 interval_ns k ((seq + 1) % 2 ^ 32)
  ret (to_bytes pkt ∷ rest)

-- `main`, from the reading of the clock at its start on.
unfoldable pub broadcast : Cli → ℕ → ℕ → Exec (List (List ℕ))
broadcast cli t0 k = rounds t0 (cli.interval_ms * 1_000_000) k 0
