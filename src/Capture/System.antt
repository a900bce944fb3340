-- ===== src/Capture/System.antt =====
-- The loop of `sw_capture_ch2_unwrapped` in any number of contexts, as steps. Each context has read
-- its register before its loop; between any two of its steps the others may make theirs.
use mathlib.Core.Logic.{ite}
use esp_clock_sync.Prelude.{ℕ, ◌%◌, ◌^◌, ◌≡◌, ◌≢◌, List, ◌∷◌, ℕ_discrete}
use esp_clock_sync.Capture.{new_packed}

-- Where a context stands: outside, with the count that its register holds the 32 low bits of, or with
-- the value that it has loaded too.
pub data Pc : Type 0 where
  outside : Pc
  latched : (count : ℕ) → Pc
  loaded : (count packed : ℕ) → Pc

pub record System : Type 0 where
  pub packed : ℕ
  pub pc : ℕ → Pc
  -- the counts of the captures and what these returned, the newest exchange first
  pub returned : List (ℕ × ℕ)

abbrev pub update : (ℕ → Pc) → ℕ → Pc → ℕ → Pc
update pc i p j = ite (ℕ_discrete i j) p (pc j)

-- `raw` of the loop: what the register shows of the count.
abbrev pub raw_of : ℕ → ℕ
raw_of count = count % 2 ^ 32

-- One step of the context `i`. A failed exchange goes back to the load, with the register as read.
pub data Step (s : System) : System → Type 0 where
  latch :
      (i count : ℕ) → s.pc i ≡ outside → Step s (record s { pc = update s.pc i (latched count) })
  load :
      (i count : ℕ)
      → s.pc i ≡ latched count
      → Step s (record s { pc = update s.pc i (loaded count s.packed) })
  exchange :
      (i count packed : ℕ)
      → s.pc i ≡ loaded count packed
      → s.packed ≡ packed
      → Step s (record {
        packed = new_packed packed (raw_of count);
        pc = update s.pc i outside;
        returned = (count, new_packed packed (raw_of count)) ∷ s.returned;
      })
  retry :
      (i count packed : ℕ)
      → s.pc i ≡ loaded count packed
      → s.packed ≢ packed
      → Step s (record s { pc = update s.pc i (latched count) })

pub data Reach (s : System) : System → Type 0 where
  here : Reach s s
  next : {t u : System} → Reach s t → Step t u → Reach s u
