-- ===== src/Capture/Linear.antt =====
-- What the captures of any number of contexts return, in the order of their exchanges.
use esp_clock_sync.Prelude.{
  ℕ, ◌+◌, ◌*◌, ◌^◌, ◌≤◌, ◌<◌, ◌≡◌, refl, sym, ◌∙◌, List, [], ◌∷◌, length, arith,
}
use esp_clock_sync.Capture.{new_packed}
use esp_clock_sync.Capture.System.{
  System, Step, latch, load, exchange, retry, raw_of, Reach, here, next,
}

-- The result of the newest exchange, or the value at first.
abbrev pub newest : List (ℕ × ℕ) → ℕ → ℕ
newest [] start = start
newest ((count, out) ∷ earlier) start = out

-- `out` is the first number from `previous` on with the low bits of the count.
abbrev pub IsNext : ℕ → ℕ → ℕ → Type 0
IsNext previous count out =
    (previous ≤ out) × (out < previous + 2 ^ 32) × (raw_of out ≡ raw_of count)

-- Each result is the first number with its low bits from the result of the exchange before it on.
abbrev pub IsSequential : List (ℕ × ℕ) → ℕ → Type 0
IsSequential [] start = Unit
IsSequential ((count, out) ∷ earlier) start =
    IsNext (newest earlier start) count out × IsSequential earlier start

new_packed-IsNext :
    (packed count : ℕ)
    → packed + 2 ^ 32 ≤ 2 ^ 64
    → IsNext packed count (new_packed packed (raw_of count))
unfolding new_packed
new_packed-IsNext packed count h = (ground arith, ground arith, ground arith)

-- What holds after steps from `start` with at most 2^64 ahead of it.
abbrev IsOrdered : ℕ → System → Type 0
IsOrdered start s =
    IsSequential s.returned start
    × (s.packed ≡ newest s.returned start)
    × (s.packed ≤ start + length s.returned * 2 ^ 32)

-- A step keeps the results in order, while the turns of all captures fit into 64 bits.
Step-IsOrdered :
    {s t : System} (start : ℕ)
    → Step s t
    → (start + length s.returned * 2 ^ 32 ≤ 2 ^ 64 → IsOrdered start s)
    → start + length t.returned * 2 ^ 32 ≤ 2 ^ 64
    → IsOrdered start t
Step-IsOrdered {s} start (latch i count h) v room = v room
Step-IsOrdered {s} start (load i count h) v room = v room
Step-IsOrdered {s} start (exchange i count packed h same) v room =
    let (sequential, now, low) = v (omega arith) in
    let (above, below, bits) = new_packed-IsNext packed count (omega arith) in
    let at : packed ≡ newest s.returned start = sym same ∙ now in
    (((omega arith, omega arith, bits), sequential), refl, omega arith)
Step-IsOrdered {s} start (retry i count packed h other) v room = v room

Reach-IsOrdered :
    (s t : System)
    → s.returned ≡ []
    → Reach s t
    → s.packed + length t.returned * 2 ^ 32 ≤ 2 ^ 64
    → IsOrdered s.packed t
Reach-IsOrdered s t fresh here room = rw fresh (tt, refl, omega arith)
Reach-IsOrdered s t fresh (next r step) room =
    Step-IsOrdered s.packed step (Reach-IsOrdered s _ fresh r) room

-- In every reachable state, whatever the contexts do between one another's steps: where the captures
-- so far, at 2^32 ticks each, do not pass 2^64, each returned the first number with the low bits of
-- its count from the result of the exchange before it on, and the shared value is the newest result.
pub Reach-IsSequential :
    (s t : System)
    → s.returned ≡ []
    → Reach s t
    → s.packed + length t.returned * 2 ^ 32 ≤ 2 ^ 64
    → IsSequential t.returned s.packed × (t.packed ≡ newest t.returned s.packed)
Reach-IsSequential s t fresh r room =
    let (sequential, now, low) = Reach-IsOrdered s t fresh r room in (sequential, now)
