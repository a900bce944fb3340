-- ===== src/Server/Schedule.antt =====
-- What a receiver reads in the datagrams of the server.
use mathlib.Core.List.{append-nil}
use native.Mathlib.Nat.{mod-eq_of_lt}
use esp_clock_sync.Prelude.{
  ℕ, zero, suc, ◌+◌, ◌*◌, ◌%◌, ◌^◌, ◌≤◌, ◌<◌, ◌≡◌, refl, sym, ap, ◌∙◌, List, [], ◌∷◌, Option, some,
  map, arith, ret,
}
use esp_clock_sync.Prelude.Words.{checked_u-ret}
use esp_clock_sync.Packet.{SyncPacket, magic, to_bytes, parse}
use esp_clock_sync.Packet.RoundTrip.{parse-to_bytes}
use esp_clock_sync.Server.{Cli, packet, rounds, broadcast}

-- The packet of the round `i`: the number and the time of that round.
abbrev pub scheduled : ℕ → ℕ → ℕ → SyncPacket
scheduled t0 interval_ns i = record { magic = magic; seq = i; send_unix_ns = t0 + i * interval_ns }

-- The packets of `k` rounds, from the round `i` on.
pub schedule : ℕ → ℕ → ℕ → ℕ → List (Option SyncPacket)
schedule t0 interval_ns zero i = []
schedule t0 interval_ns (suc k) i =
    some (scheduled t0 interval_ns i) ∷ schedule t0 interval_ns k (i + 1)

elapsed_le :
    (seq interval_ns : ℕ) → seq < 2 ^ 32 → interval_ns < 2 ^ 84 → seq * interval_ns < 2 ^ 116
elapsed_le seq interval_ns h k = grind arith

packet-scheduled :
    (t0 interval_ns i : ℕ)
    → t0 < 2 ^ 127
    → interval_ns < 2 ^ 84
    → i < 2 ^ 32
    → (packet t0 interval_ns i ≡ ret (scheduled t0 interval_ns i))
      × (parse (to_bytes (scheduled t0 interval_ns i)) ≡ some (scheduled t0 interval_ns i))
unfolding packet
packet-scheduled t0 interval_ns i h hi hs =
    let small = elapsed_le i interval_ns hs hi in
    (
      rw
          (
            checked_u-ret 128 (i * interval_ns) (omega arith),
            checked_u-ret 128 (t0 + i * interval_ns) (omega arith),
          )
          refl,
      ap parse (sym (append-nil (to_bytes (scheduled t0 interval_ns i))))
          ∙ parse-to_bytes (scheduled t0 interval_ns i) []
              (record { has_magic = refl; seq_fits = hs; ns_fits = omega arith }),
    )

rounds-schedule :
    (t0 interval_ns k i : ℕ)
    → t0 < 2 ^ 127
    → interval_ns < 2 ^ 84
    → i + k ≤ 2 ^ 32
    → (out : List (List ℕ)) × (rounds t0 interval_ns k i ≡ ret out)
      × (map parse out ≡ schedule t0 interval_ns k i)
unfolding rounds schedule
rounds-schedule t0 interval_ns zero i h hi le = ([], refl, refl)
rounds-schedule t0 interval_ns (suc zero) i h hi le =
    let (sends, reads) = packet-scheduled t0 interval_ns i h hi (omega arith) in
    (to_bytes (scheduled t0 interval_ns i) ∷ [], rw sends refl, rw reads refl)
rounds-schedule t0 interval_ns (suc (suc k)) i h hi le =
    let (sends, reads) = packet-scheduled t0 interval_ns i h hi (omega arith) in
    let (out, runs, final) = rounds-schedule t0 interval_ns (suc k) (i + 1) h hi (omega arith) in
    let next : (i + 1) % 2 ^ 32 ≡ i + 1 = mod-eq_of_lt (omega arith) in
    (
      to_bytes (scheduled t0 interval_ns i) ∷ out,
      rw (sends, next, runs) refl,
      rw (reads, final) refl,
    )

-- The first `k` datagrams, at most 2^32 of them, parse to the packets of the schedule in order: the
-- packet `i` has the number `i` and the time `t0 + i * interval`. The server does not panic.
pub broadcast-schedule :
    (cli : Cli) (t0 k : ℕ)
    → t0 < 2 ^ 127
    → cli.interval_ms < 2 ^ 64
    → k ≤ 2 ^ 32
    → (out : List (List ℕ)) × (broadcast cli t0 k ≡ ret out)
      × (map parse out ≡ schedule t0 (cli.interval_ms * 1_000_000) k 0)
unfolding broadcast
broadcast-schedule cli t0 k h hi le =
    rounds-schedule t0 (cli.interval_ms * 1_000_000) k 0 h (omega arith) (omega arith)
