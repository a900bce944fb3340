-- ===== src/SkewMeter/Report.antt =====
-- crates/skew-meter/src/main.rs: the lines of the statistics.
use esp_clock_sync.Prelude.{
  ℕ, ◌+◌, ◌-◌, List, [], ◌∷◌, ◌++◌, length, replicate, leb, ltb, ◌==◌, if◌then◌else◌,
}
use esp_clock_sync.Prelude.Int.{ℤ, pos, negsuc}
use esp_clock_sync.Text.{codes, decimal}
use esp_clock_sync.SkewMeter.{Meter}
use esp_clock_sync.SkewMeter.Stats.{DirStats}

-- `{:>5}` of a text, and `{:+}` of a number: its sign is always shown.
abbrev pub pad : ℕ → List ℕ → List ℕ
pad width text = replicate (width - length text) b' ' ++ text

abbrev pub plus : ℤ → List ℕ
plus (pos n) = b'+' ∷ decimal n
plus (negsuc n) = b'-' ∷ decimal (n + 1)

unfoldable pub format : DirStats → List ℕ → List ℕ
format s label =
    label
    ++ (codes "  n="
        ++ (pad 5 (decimal s.n)
            ++ (codes "  mean="
                ++ (pad 6 (plus s.mean_us)
                    ++ (codes "µs  stddev="
                        ++ (pad 5 (decimal s.stddev_us)
                            ++ (codes "µs  p99="
                                ++ (pad 5 (decimal s.p99_abs_us)
                                    ++ (codes "µs  max|Δ|="
                                        ++ (pad 5 (decimal s.max_abs_us) ++ codes "µs"))))))))))

-- The line of a direction while it runs.
abbrev pub running_line : ℕ → DirStats → List ℕ → List (List ℕ)
running_line limit_us s label =
    if s.n == 0
    then []
    else ((if leb s.max_abs_us limit_us then codes "OK " else codes "!! ")
        ++ (codes " " ++ format s label))
      ∷ []

-- What is printed, given the time since the last print in ns.
unfoldable pub maybe_print_stats : ℕ → Meter → ℕ → List (List ℕ)
maybe_print_stats elapsed_ns m limit_us =
    if ltb elapsed_ns 1_000_000_000
    then []
    else running_line limit_us m.stats0 (codes "0→1")
      ++ running_line limit_us m.stats1 (codes "1→0")

abbrev pub final_line : DirStats → List ℕ → List ℕ
final_line s label = if s.n == 0 then label ++ codes ": no matched events" else format s label

-- What `main` prints at its end.
unfoldable pub final_lines : Meter → List (List ℕ)
final_lines m =
    codes "\n=== final ==="
    ∷ final_line m.stats0 (codes "device 0 → device 1")
    ∷ final_line m.stats1 (codes "device 1 → device 0")
    ∷ []
