-- ===== src/SkewMeter/Reader.antt =====
-- crates/skew-meter/src/main.rs, `spawn_reader` and the start of `main`. What the ports and the
-- spawner answer is an argument, and so is what a port yields: a line, or none for an error of it.
use esp_clock_sync.Prelude.{
  ℕ, ◌+◌, Bool, List, [], ◌∷◌, ◌++◌, Option, none, some, ◌==◌, if◌then◌else◌, length,
}
use esp_clock_sync.SkewMeter.{Event}
use esp_clock_sync.SkewMeter.Parse.{parse_line}

-- Why `main` ends before its loop.
pub data StartError : Type 0 where
  wrong_ports : (got : ℕ) → StartError
  not_opened : (path : List ℕ) → StartError
  not_spawned : (device : ℕ) → StartError

-- The answers of `open` for each path, and those of `spawn` for each reader.
pub record Answers : Type 0 where
  pub opens : List ℕ → Bool
  pub spawns : ℕ → Bool

-- The event, where there is one.
abbrev pub sends : Option Event → List Event
sends none = []
sends (some ev) = ev ∷ []

-- The loop of a reader: the events that it sends. An error is skipped.
unfoldable pub reader : ℕ → List (Option (List ℕ)) → List Event
reader device [] = []
reader device (none ∷ lines) = reader device lines
reader device (some line ∷ lines) = sends (parse_line device line) ++ reader device lines

-- What fails, if something does.
unfoldable pub spawn_reader : Answers → ℕ → List ℕ → Option StartError
spawn_reader answers device path =
    if answers.opens path
    then (if answers.spawns device then none else some (not_spawned device))
    else some (not_opened path)

abbrev or_else : Option StartError → Option StartError → Option StartError
or_else none rest = rest
or_else (some e) rest = some e

-- The loop over the ports, which ends at the first error.
unfoldable pub spawn_readers : Answers → ℕ → List (List ℕ) → Option StartError
spawn_readers answers i [] = none
spawn_readers answers i (path ∷ paths) =
    or_else (spawn_reader answers i path) (spawn_readers answers (i + 1) paths)

-- `main` up to its loop.
unfoldable pub start : Answers → List (List ℕ) → Option StartError
start answers ports =
    if length ports == 2 then spawn_readers answers 0 ports else some (wrong_ports (length ports))
