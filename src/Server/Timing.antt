-- ===== src/Server/Timing.antt =====
-- crates/clock-sync-server/src/main.rs, when the loop of `main` sends. Times are in ns; what the
-- sleep and the system take beyond what the loop asks for is an argument of each round.
use esp_clock_sync.Prelude.{ℕ, ◌+◌, ◌-◌, ◌≤◌, arith, List, [], ◌∷◌, All, ltb, if◌then◌else◌}

-- In a round: from the end of the asked sleep, or the reading of the clock where there is none, to
-- the packet on the wire, and from there to the reading of the next round.
pub record Delay : Type 0 where
  pub late : ℕ
  pub rest : ℕ

-- `if next > now { sleep(next - now) }`
abbrev pub sleep_ns : ℕ → ℕ → ℕ
sleep_ns next now = if ltb now next then next - now else 0

-- The times of the packets, from a round with the schedule at `next` and the clock at `now` on.
unfoldable pub sends : ℕ → ℕ → ℕ → List Delay → List ℕ
sends interval next now [] = []
sends interval next now (d ∷ ds) =
    (now + sleep_ns next now + d.late)
    ∷ sends interval (next + interval) (now + sleep_ns next now + d.late + d.rest) ds

-- Each packet leaves at its time in the schedule or after it, by at most `lag` and the delay of its
-- own round.
abbrev pub IsOnTime : ℕ → ℕ → ℕ → List Delay → List ℕ → Type 0
IsOnTime interval next lag [] [] = Unit
IsOnTime interval next lag (d ∷ ds) (t ∷ ts) =
    (next ≤ t) × (t ≤ next + lag + d.late) × IsOnTime interval (next + interval) lag ds ts
IsOnTime interval next lag [] (t ∷ ts) = ⊥
IsOnTime interval next lag (d ∷ ds) [] = ⊥

sleep_until :
    (next now lag : ℕ)
    → now ≤ next + lag
    → (next ≤ now + sleep_ns next now) × (now + sleep_ns next now ≤ next + lag)
sleep_until next now lag h = (ground arith, ground arith)

-- Where the delays of each round together are at most the interval, no packet leaves before its time
-- in the schedule, and none later than by the lag of the first round and the delay of its own round:
-- the delays do not add up.
pub sends-IsOnTime :
    (interval lag next now : ℕ) (ds : List Delay)
    → now ≤ next + lag
    → All (λ d. d.late + d.rest ≤ interval) ds
    → IsOnTime interval next lag ds (sends interval next now ds)
unfolding sends
sends-IsOnTime interval lag next now [] h k = tt
sends-IsOnTime interval lag next now (d ∷ ds) h k =
    let (early, late) = sleep_until next now lag h in
    let fits = k.0 in
    (
      omega arith,
      omega arith,
      sends-IsOnTime interval lag (next + interval) (now + sleep_ns next now + d.late + d.rest) ds
          (omega arith) k.1,
    )
