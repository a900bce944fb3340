-- ===== src/Window.antt =====
-- crates/clock-sync/src/lib.rs: the ring of samples that `Estimator` and `LinearTracker` each hold
-- as an array of options, a head and a count, against the list of its samples, oldest first.
pub mod Push
use esp_clock_sync.Prelude.{
  ℕ, suc, ◌+◌, ◌-◌, ◌≡◌, ◌<◌, List, [], ◌∷◌, ◌++◌, Option, none, some, map, length, drop, replicate,
}

-- The newest `cap` entries of a history, oldest first.
unfoldable pub keep_last {ℓ} : {A : Type ℓ} → ℕ → List A → List A
keep_last cap xs = drop (length xs - cap) xs

-- The array holds `xs`, oldest first: while it fills up, from its start; when it is full, from
-- `head` on and round its end.
pub data Holds {ℓ} {A : Type ℓ} (cap : ℕ) (samples : List (Option A)) (head n : ℕ) (xs : List A)
    : Type ℓ where
  filling :
      (free : ℕ)
      → samples ≡ map some xs ++ replicate (suc free) none
      → head ≡ length xs
      → n ≡ length xs
      → length xs + suc free ≡ cap
      → Holds cap samples head n xs
  full :
      (newer : List A) (oldest : A) (older : List A)
      → samples ≡ map some newer ++ map some (oldest ∷ older)
      → xs ≡ (oldest ∷ older) ++ newer
      → head ≡ length newer
      → n ≡ cap
      → length newer + suc (length older) ≡ cap
      → Holds cap samples head n xs
