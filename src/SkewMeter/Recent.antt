-- ===== src/SkewMeter/Recent.antt =====
-- The 99th percentile of the recent differences.
use mathlib.Core.Path.{subst}
use mathlib.Core.Option.{some_inj}
use esp_clock_sync.Prelude.{
  ℕ, zero, suc, ◌+◌, ◌-◌, ◌*◌, ◌/◌, ◌≤◌, ◌<◌, ◌≡◌, refl, ap, ◌∙◌, arith, Bool, List, [], ◌∷◌, some,
  ltb, leb, if◌then◌else◌, All, All-map, Bool-cases, inl, inr, length, get_elem?, min,
}
use esp_clock_sync.SkewMeter.Stats.{insert_sorted, sort_unstable, p99}

abbrev pub IsSorted : List ℕ → Type 0
IsSorted [] = Unit
IsSorted (x ∷ xs) = All (λ y. x ≤ y) xs × IsSorted xs

-- How many of the entries pass the test.
abbrev pub count : (ℕ → Bool) → List ℕ → ℕ
count test [] = 0
count test (x ∷ xs) = (if test x then 1 else 0) + count test xs

-- How many of the entries are at most `v`, and how many are below it.
abbrev pub count_le : ℕ → List ℕ → ℕ
count_le v xs = count (λ x. leb x v) xs

abbrev pub count_lt : ℕ → List ℕ → ℕ
count_lt v xs = count (λ x. ltb x v) xs

count-insert_sorted :
    (test : ℕ → Bool) (x : ℕ) (xs : List ℕ) → count test (insert_sorted x xs) ≡ count test (x ∷ xs)
unfolding insert_sorted
count-insert_sorted test x [] = refl
count-insert_sorted test x (y ∷ ys) = let ih = count-insert_sorted test x ys in ground (arith, ih)

count-sort_unstable :
    (test : ℕ → Bool) (xs : List ℕ) → count test (sort_unstable xs) ≡ count test xs
unfolding sort_unstable
count-sort_unstable test [] = refl
count-sort_unstable test (x ∷ xs) =
    let head = count-insert_sorted test x (sort_unstable xs) in
    let ih = count-sort_unstable test xs in omega arith

All-insert_sorted :
    (P : ℕ → Type 0) (x : ℕ) (xs : List ℕ) → P x → All P xs → All P (insert_sorted x xs)
unfolding insert_sorted
All-insert_sorted P x [] p h = (p, tt)
All-insert_sorted P x (y ∷ ys) p h = elim (Bool-cases (leb x y)) [
  | inl first ↦ rw first (p, h)
  | inr later ↦ rw later (h.0, All-insert_sorted P x ys p h.1)
]

insert_sorted-IsSorted : (x : ℕ) (xs : List ℕ) → IsSorted xs → IsSorted (insert_sorted x xs)
unfolding insert_sorted
insert_sorted-IsSorted x [] h = (tt, tt)
insert_sorted-IsSorted x (y ∷ ys) h = elim (Bool-cases (leb x y)) [
  | inl first ↦ rw first ((ground arith, All-map _ (λ z. x ≤ z) ys (λ z le. ground arith) h.0), h)
  | inr later ↦
      rw later
        (All-insert_sorted (λ z. y ≤ z) x ys (ground arith) h.0, insert_sorted-IsSorted x ys h.1)
]

pub sort_unstable-IsSorted : (xs : List ℕ) → IsSorted (sort_unstable xs)
unfolding sort_unstable
sort_unstable-IsSorted [] = tt
sort_unstable-IsSorted (x ∷ xs) = insert_sorted-IsSorted x _ (sort_unstable-IsSorted xs)

length-insert_sorted : (x : ℕ) (xs : List ℕ) → length (insert_sorted x xs) ≡ suc (length xs)
unfolding insert_sorted
length-insert_sorted x [] = refl
length-insert_sorted x (y ∷ ys) = let ih = length-insert_sorted x ys in ground (arith, ih)

length-sort_unstable : (xs : List ℕ) → length (sort_unstable xs) ≡ length xs
unfolding sort_unstable
length-sort_unstable [] = refl
length-sort_unstable (x ∷ xs) =
    length-insert_sorted x (sort_unstable xs) ∙ ap suc (length-sort_unstable xs)

All-get_elem? : (P : ℕ → Type 0) (xs : List ℕ) (i v : ℕ) → All P xs → get_elem? xs i ≡ some v → P v
All-get_elem? P [] i v h e = cc
All-get_elem? P (x ∷ xs) zero v h e = subst P (some_inj.0 e) h.0
All-get_elem? P (x ∷ xs) (suc i) v h e = All-get_elem? P xs i v h.1 e

count_lt_zero : (v : ℕ) (xs : List ℕ) → All (λ y. v ≤ y) xs → count_lt v xs ≡ 0
count_lt_zero v [] h = refl
count_lt_zero v (x ∷ xs) h = let ih = count_lt_zero v xs h.1 in let le = h.0 in ground arith

-- The entry at an index of a sorted list is there, at most so many entries are below it, and more
-- are at most it.
get_elem?-rank :
    (xs : List ℕ) (i : ℕ)
    → IsSorted xs
    → i < length xs
    → (v : ℕ) × (get_elem? xs i ≡ some v) × (i + 1 ≤ count_le v xs) × (count_lt v xs ≤ i)
get_elem?-rank [] i h k = absurd (omega arith)
get_elem?-rank (x ∷ xs) zero h k =
    let none_below = count_lt_zero x xs h.0 in (x, refl, ground arith, ground arith)
get_elem?-rank (x ∷ xs) (suc i) h k =
    let (v, at_v, above, below) = get_elem?-rank xs i h.1 (omega arith) in
    let le = All-get_elem? (λ y. x ≤ y) xs i v h.0 at_v in
    (v, at_v, rank_le x v xs i le above, rank_lt x v xs i below)
  where
    rank_le :
        (x v : ℕ) (xs : List ℕ) (i : ℕ)
        → x ≤ v
        → i + 1 ≤ count_le v xs
        → suc i + 1 ≤ count_le v (x ∷ xs)
    rank_le x v xs i le above = ground arith

    rank_lt : (x v : ℕ) (xs : List ℕ) (i : ℕ) → count_lt v xs ≤ i → count_lt v (x ∷ xs) ≤ suc i
    rank_lt x v xs i below = ground arith

-- At least 99 in 100 of the recent differences are at most the percentile, and at most 99 in 100
-- are below it.
pub p99-rank :
    (recent : List ℕ)
    → 0 < length recent
    → (99 * length recent ≤ 100 * count_le (p99 recent) recent)
      × (100 * count_lt (p99 recent) recent ≤ 99 * length recent)
unfolding p99
p99-rank recent h =
    let sorted = sort_unstable recent in
    let idx = min (length (sort_unstable recent) * 99 / 100) (length (sort_unstable recent) - 1) in
    let len = length-sort_unstable recent in
    let (v, at_v, above, below) =
      get_elem?-rank (sort_unstable recent) idx (sort_unstable-IsSorted recent) (omega arith) in
    let le = count-sort_unstable (λ x. leb x v) recent in
    let lt = count-sort_unstable (λ x. ltb x v) recent in rw at_v (omega arith, omega arith)
