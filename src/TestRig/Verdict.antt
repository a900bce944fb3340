-- ===== src/TestRig/Verdict.antt =====
-- The verdict of the skew meter on what two boards print.
use native.Mathlib.Nat.{le_trans}
use esp_clock_sync.Prelude.{
  ℕ, zero, suc, ◌*◌, ◌^◌, ◌≤◌, ◌<◌, ◌≡◌, refl, ◌⊎◌, ◌↔◌, arith, List, [], ◌∷◌, ◌++◌, map, none,
  some, All, All-append, All-map, length, Exec, ret,
}
use esp_clock_sync.SkewMeter.{Event, tx, rx, Cli}
use esp_clock_sync.SkewMeter.Nearest.{times}
use esp_clock_sync.SkewMeter.Trace.{IsTrace, IsClean}
use esp_clock_sync.SkewMeter.History.{times-snoc}
use esp_clock_sync.SkewMeter.Reader.{Answers, start, reader}
use esp_clock_sync.SkewMeter.Loop.{Turn, exited, program}
use esp_clock_sync.SkewMeter.Program.{heard, program-IsClean}
use esp_clock_sync.TestRig.{Mac}
use esp_clock_sync.TestRig.Lines.{IsMac}
use esp_clock_sync.TestRig.Pipeline.{
  Output, sent, received, other, unread, read, edges, IsPrinted, reader-edges,
}

-- Two sequences of events on one channel: the order within each is kept.
pub data Interleaved : List Event → List Event → List Event → Type 0 where
  done : Interleaved [] [] []
  first :
      {xs ys zs : List Event} (x : Event) → Interleaved xs ys zs → Interleaved (x ∷ xs) ys (x ∷ zs)
  second :
      {xs ys zs : List Event} (y : Event) → Interleaved xs ys zs → Interleaved xs (y ∷ ys) (y ∷ zs)

-- The events of one board behind an edge sent at `last`.
abbrev IsBoard : ℕ → ℕ → List Event → Type 0
IsBoard device last [] = Unit
IsBoard device last (tx d mac seq t ∷ q) =
    (d ≡ device) × (last ≤ t) × (t < 2 ^ 126) × IsBoard device t q
IsBoard device last (rx d mac t ∷ q) = (d ≡ device) × (t < 2 ^ 126) × IsBoard device last q

edges-IsBoard :
    (device last : ℕ) (m : Mac) (os : List Output)
    → IsPrinted last os
    → IsBoard device last (edges device m os)
unfolding edges
edges-IsBoard device last m [] h = tt
edges-IsBoard device last m (sent seq t target_ns cap_us ∷ os) (hs, le, hn, h) =
    (refl, le, hn, edges-IsBoard device t m os h)
edges-IsBoard device last m (received port none cap_us ∷ os) (clean, hn, h) =
    edges-IsBoard device last m os h
edges-IsBoard device last m (received port (some t) cap_us ∷ os) (clean, hn, h) =
    (refl, hn.0, edges-IsBoard device last m os h)
edges-IsBoard device last m (other text ∷ os) (no_tx, no_rx, h) = edges-IsBoard device last m os h
edges-IsBoard device last m (unread ∷ os) h = edges-IsBoard device last m os h

abbrev IsUpTo : ℕ → List Event → Type 0
IsUpTo last q = All (λ u. u ≤ last) (times q)

IsUpTo-snoc :
    (last device : ℕ) (mac : List ℕ) (seq t : ℕ) (q : List Event)
    → IsUpTo last q
    → last ≤ t
    → IsUpTo t q × IsUpTo t (q ++ tx device mac seq t ∷ [])
IsUpTo-snoc last device mac seq t q h le =
    let wider = All-map (λ u. u ≤ last) (λ u. u ≤ t) (times q) (λ u k. le_trans k le) h in
    (
      wider,
      rw (times-snoc q device mac seq t)
          (All-append (λ u. u ≤ t) (times q) (t ∷ []) wider (omega arith, tt)),
    )

-- However the events of two boards interleave, each board's edges are in the order of their times.
Interleaved-IsTrace :
    (last0 last1 : ℕ) (sent0 sent1 : List Event) {xs ys zs : List Event}
    → Interleaved xs ys zs
    → IsBoard 0 last0 xs
    → IsBoard 1 last1 ys
    → IsUpTo last0 sent0
    → IsUpTo last1 sent1
    → IsTrace sent0 sent1 zs
Interleaved-IsTrace last0 last1 sent0 sent1 done h k up0 up1 = tt
Interleaved-IsTrace last0 last1 sent0 sent1 (first (tx zero mac seq t) rest) (is, le, small, h) k
      up0 up1 =
    let (wider, up) = IsUpTo-snoc last0 zero mac seq t sent0 up0 le in
    (
      (small, wider),
      Interleaved-IsTrace t last1 (sent0 ++ tx zero mac seq t ∷ []) sent1 rest h k up up1,
    )
Interleaved-IsTrace last0 last1 sent0 sent1 (first (tx (suc d) mac seq t) rest) (is, le, small, h) k
      up0 up1 =
    absurd (omega arith)
Interleaved-IsTrace last0 last1 sent0 sent1 (first (rx d mac t) rest) (is, small, h) k up0 up1 =
    ((small, omega arith), Interleaved-IsTrace last0 last1 sent0 sent1 rest h k up0 up1)
Interleaved-IsTrace last0 last1 sent0 sent1 (second (tx zero mac seq t) rest) h (is, le, small, k)
      up0 up1 =
    absurd (omega arith)
Interleaved-IsTrace last0 last1 sent0 sent1 (second (tx (suc d) mac seq t) rest) h
      (is, le, small, k) up0 up1 =
    let (wider, up) = IsUpTo-snoc last1 (suc d) mac seq t sent1 up1 le in
    (
      (small, wider, omega arith),
      Interleaved-IsTrace last0 t sent0 (sent1 ++ tx (suc d) mac seq t ∷ []) rest h k up0 up,
    )
Interleaved-IsTrace last0 last1 sent0 sent1 (second (rx d mac t) rest) h (is, small, k) up0 up1 =
    ((small, omega arith), Interleaved-IsTrace last0 last1 sent0 sent1 rest h k up0 up1)

-- Two boards print lines, sent edges in the order of their times, and the skew meter reads them on
-- its two ports, with errors between them. It hears exactly the printed edges of both, interleaved in
-- any way, at most 2^20 of them, and ends with no panic. Its code is 0 exactly if each received edge
-- of a board is within the limit of one that the other has sent within the window, or none was, and
-- 2 otherwise.
pub boards_verdict :
    (sqrt : ℕ → ℕ) (add : ℕ → ℕ → Exec ℕ) (answers : Answers) (cli : Cli)
    (begin last_print deadline : ℕ) (ts : List Turn) (m0 m1 : Mac) (os0 os1 : List Output)
    → start answers cli.ports ≡ none
    → add begin cli.seconds ≡ ret deadline
    → cli.match_window_ms * 1_000_000 < 2 ^ 50
    → IsMac m0
    → IsMac m1
    → IsPrinted 0 os0
    → IsPrinted 0 os1
    → Interleaved (reader 0 (map (read m0) os0)) (reader 1 (map (read m1) os1)) (heard deadline ts)
    → length (heard deadline ts) ≤ 2 ^ 20
    → Interleaved (edges 0 m0 os0) (edges 1 m1 os1) (heard deadline ts)
      × ((code : ℕ) × (lines : List (List ℕ)) × (program sqrt add answers cli begin last_print ts
            ≡ ret (exited code lines))
          × ((code ≡ 0) ⊎ (code ≡ 2))
          × ((code ≡ 0)
              ↔ IsClean (cli.match_window_ms * 1_000_000) cli.limit_us [] [] (heard deadline ts)))
boards_verdict sqrt add answers cli begin last_print deadline ts m0 m1 os0 os1 opened sum hw v0 v1
      p0 p1 mixed few =
    let both : Interleaved (edges 0 m0 os0) (edges 1 m1 os1) (heard deadline ts) =
      rw (reader-edges 0 0 m0 os0 v0 p0, reader-edges 1 0 m1 os1 v1 p1) at mixed in
    (
      both,
      program-IsClean sqrt add answers cli begin last_print deadline ts opened sum hw few (
          Interleaved-IsTrace 0 0 [] [] both (edges-IsBoard 0 0 m0 os0 p0)
            (edges-IsBoard 1 0 m1 os1 p1) tt tt),
    )
