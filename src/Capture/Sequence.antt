-- ===== src/Capture/Sequence.antt =====
-- Software captures one after the other: the full count of the timer, and what a capture that was
-- overtaken does to it.
use esp_clock_sync.Prelude.{ℕ, ◌+◌, ◌%◌, ◌^◌, ◌≤◌, ◌<◌, ◌≡◌, refl, ap, List, [], ◌∷◌, map, arith}
use esp_clock_sync.Capture.{new_packed}

new_packed-exact : (v t : ℕ) → v ≤ t → t < v + 2 ^ 32 → t < 2 ^ 63 → new_packed v (t % 2 ^ 32) ≡ t
unfolding new_packed
new_packed-exact v t p q r = ground arith

-- The captures of the counts of a list: what each returns.
unfoldable pub captures : ℕ → List ℕ → List ℕ
captures packed [] = []
captures packed (t ∷ ts) = let next = new_packed packed (t % 2 ^ 32) in next ∷ captures next ts

-- Each count is reached after the one before it, by less than 2^32 ticks, and is below 2^63.
abbrev pub IsPaced : ℕ → List ℕ → Type 0
IsPaced v [] = Unit
IsPaced v (t ∷ ts) = (v ≤ t) × (t < v + 2 ^ 32) × (t < 2 ^ 63) × IsPaced t ts

-- Captures in the order of their counts, less than 2^32 ticks apart, return the full counts.
pub captures-exact : (ts : List ℕ) (v : ℕ) → IsPaced v ts → captures v ts ≡ ts
unfolding captures
captures-exact [] v h = refl
captures-exact (t ∷ ts) v (p, q, r, h) =
    rw (new_packed-exact v t p q r) (ap (◌∷◌ t) (captures-exact ts t h))

new_packed_stale :
    (v t : ℕ) → t < v → v < t + 2 ^ 32 → t < 2 ^ 63 → new_packed v (t % 2 ^ 32) ≡ t + 2 ^ 32
unfolding new_packed
new_packed_stale v t p q r = ground arith

-- The counts of a list, moved up by one turn of the register.
abbrev pub one_turn_late : List ℕ → List ℕ
one_turn_late ts = map (λ t. t + 2 ^ 32) ts

new_packed_late :
    (v t : ℕ)
    → v ≤ t
    → t < v + 2 ^ 32
    → t < 2 ^ 63
    → new_packed (v + 2 ^ 32) (t % 2 ^ 32) ≡ t + 2 ^ 32
unfolding new_packed
new_packed_late v t p q r = ground arith

captures_late : (ts : List ℕ) (v : ℕ) → IsPaced v ts → captures (v + 2 ^ 32) ts ≡ one_turn_late ts
unfolding captures
captures_late [] v h = refl
captures_late (t ∷ ts) v (p, q, r, h) =
    rw (new_packed_late v t p q r) (ap (◌∷◌ (t + 2 ^ 32)) (captures_late ts t h))

-- A capture of the count `t` whose exchange comes after that of a later count `v`, less than 2^32
-- ticks ahead, returns a count that is 2^32 ticks too high, and so does every capture after it.
pub captures_stale :
    (v t : ℕ) (ts : List ℕ)
    → t < v
    → v < t + 2 ^ 32
    → t < 2 ^ 63
    → IsPaced t ts
    → captures v (t ∷ ts) ≡ one_turn_late (t ∷ ts)
unfolding captures
captures_stale v t ts p q r h =
    rw (new_packed_stale v t p q r) (ap (◌∷◌ (t + 2 ^ 32)) (captures_late ts t h))
