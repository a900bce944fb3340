-- ===== src/Window/Push.antt =====
-- What one write at the head does to the held list, and what the array shows of it.
use mathlib.Core.List.{append_assoc, append-nil}
use native.Mathlib.Nat.{mod-eq_of_lt, mod_self}
use esp_clock_sync.Prelude.{
  ℕ, zero, suc, ◌+◌, ◌-◌, ◌%◌, ◌≤◌, ◌<◌, ◌≡◌, refl, sym, ap, ◌∙◌, List, [], ◌∷◌, ◌++◌, Option, none,
  some, map, arith, ltb, if◌then◌else◌, length, drop, replicate, set, somes, All, length-append,
  length-drop, length-replicate, drop-drop, set-append, somes-append, somes-map, somes-replicate,
  All-drop,
}
use esp_clock_sync.Window.{keep_last, Holds, filling, full}

module _ {ℓ} {A : Type ℓ} where
  length-map-some : (xs : List A) → length (map some xs) ≡ length xs
  length-map-some [] = refl
  length-map-some (x ∷ xs) = ap suc (length-map-some xs)

  drop-append_left : (k : ℕ) (xs ys : List A) → k ≤ length xs → drop k (xs ++ ys) ≡ drop k xs ++ ys
  drop-append_left zero xs ys h = refl
  drop-append_left (suc k) [] ys h = absurd (omega arith)
  drop-append_left (suc k) (x ∷ xs) ys h = drop-append_left k xs ys (omega arith)

  pub keep_last_all : (cap : ℕ) (xs : List A) → length xs ≤ cap → keep_last cap xs ≡ xs
  unfolding keep_last
  keep_last_all cap xs h = let e : length xs - cap ≡ 0 = omega arith in rw e refl

  keep_last_tail : (cap : ℕ) (x : A) (xs : List A) → length xs ≡ cap → keep_last cap (x ∷ xs) ≡ xs
  unfolding keep_last
  keep_last_tail cap x xs h = let e : suc (length xs) - cap ≡ 1 = omega arith in rw e refl

  pub keep_last-All {κ} :
      (P : A → Type κ) (cap : ℕ) (xs : List A) → All P xs → All P (keep_last cap xs)
  unfolding keep_last
  keep_last-All P cap xs h = All-drop P _ xs h

  pub keep_last-snoc :
      (cap : ℕ) (xs : List A) (x : A)
      → 0 < cap
      → keep_last cap (keep_last cap xs ++ x ∷ []) ≡ keep_last cap (xs ++ x ∷ [])
  unfolding keep_last
  keep_last-snoc cap xs x h =
      ap (drop _) (sym (drop-append_left (length xs - cap) xs (x ∷ []) (omega arith)))
      ∙ drop-drop _ (length xs - cap) (xs ++ x ∷ [])
      ∙ ap (λ k. drop k (xs ++ x ∷ []))
          (omega (
            arith,
            length-append xs (x ∷ []),
            length-append (drop (length xs - cap) xs) (x ∷ []),
            length-drop (length xs - cap) xs,
          ))

  map-some_snoc :
      (ys : List A) (x : A) (bs : List (Option A))
      → map some ys ++ some x ∷ bs ≡ map some (ys ++ x ∷ []) ++ bs
  map-some_snoc [] x bs = refl
  map-some_snoc (y ∷ ys) x bs = ap (◌∷◌ (some y)) (map-some_snoc ys x bs)

  -- A write just behind the entries `ys`.
  set_behind :
      (samples : List (Option A)) (ys : List A) (o : Option A) (bs : List (Option A)) (head : ℕ)
      (x : A)
      → samples ≡ map some ys ++ o ∷ bs
      → head ≡ length ys
      → set samples head (some x) ≡ map some (ys ++ x ∷ []) ++ bs
  set_behind samples ys o bs head x e eh = rw e (
      set-append (map some ys) o bs head (some x) (eh ∙ sym (length-map-some ys))
      ∙ map-some_snoc ys x bs)

  -- The constructor `full` for a list of older entries that is not empty.
  full_of :
      (cap : ℕ) (samples : List (Option A)) (head n : ℕ) (xs newer olds : List A)
      → 0 < length olds
      → samples ≡ map some newer ++ map some olds
      → xs ≡ olds ++ newer
      → head ≡ length newer
      → n ≡ cap
      → length newer + length olds ≡ cap
      → Holds cap samples head n xs
  full_of cap samples head n xs newer [] h e ex eh en ec = absurd (omega arith)
  full_of cap samples head n xs newer (o ∷ olds) h e ex eh en ec = full newer o olds e ex eh en ec

  -- Writing the next sample at the head keeps the newest `cap` samples.
  pub Holds-push :
      (cap : ℕ) (samples : List (Option A)) (head n : ℕ) (xs : List A) (x : A)
      → Holds cap samples head n xs
      → Holds cap
          (set samples head (some x))
          ((head + 1) % cap)
          (if ltb n cap then n + 1 else n)
          (keep_last cap (xs ++ x ∷ []))
  Holds-push cap samples head n xs x (filling zero e eh en ec) =
      let snoc = length-append xs (x ∷ []) in
      full_of cap _ _ _ _ [] (xs ++ x ∷ []) (omega arith)
        (set_behind samples xs none [] head x e eh ∙ append-nil _)
        (keep_last_all cap _ (omega arith) ∙ sym (append-nil _))
        (let e' : head + 1 ≡ cap = omega arith in rw (e', mod_self) refl) (ground arith)
        (omega arith)
  Holds-push cap samples head n xs x (filling (suc free) e eh en ec) =
      let snoc = length-append xs (x ∷ []) in
      let all = keep_last_all cap (xs ++ x ∷ []) (omega arith) in
      rw all (
        filling free (set_behind samples xs none (replicate (suc free) none) head x e eh)
          (let below : head + 1 < cap = omega arith in rw (mod-eq_of_lt below) (omega arith))
          (ground arith) (omega arith))
  Holds-push cap samples head n xs x (full newer oldest [] e ex eh en ec) =
      let snoc = length-append newer (x ∷ []) in
      let kept : keep_last cap (xs ++ x ∷ []) ≡ newer ++ x ∷ [] =
        rw ex (keep_last_tail cap oldest (newer ++ x ∷ []) (omega arith)) in
      full_of cap _ _ _ _ [] (newer ++ x ∷ []) (omega arith)
        (set_behind samples newer (some oldest) [] head x e eh ∙ append-nil _)
        (kept ∙ sym (append-nil _))
        (let e' : head + 1 ≡ cap = omega arith in rw (e', mod_self) refl) (ground arith)
        (omega arith)
  Holds-push cap samples head n xs x (full newer oldest (y ∷ older) e ex eh en ec) =
      let snoc = length-append newer (x ∷ []) in
      let kept : keep_last cap (xs ++ x ∷ []) ≡ (y ∷ older) ++ (newer ++ x ∷ []) =
        rw (ex, append_assoc older newer (x ∷ []))
          (keep_last_tail cap oldest (y ∷ (older ++ (newer ++ x ∷ [])))
            (omega (arith, length-append older (newer ++ x ∷ [])))) in
      full (newer ++ x ∷ []) y older
        (set_behind samples newer (some oldest) (map some (y ∷ older)) head x e eh) kept
        (let below : head + 1 < cap = omega arith in rw (mod-eq_of_lt below) (omega arith))
        (ground arith) (omega arith)

  -- The entries of the array, in the array's order, are those of the held list, rotated.
  pub Holds-rotation :
      (cap : ℕ) (samples : List (Option A)) (head n : ℕ) (xs : List A)
      → Holds cap samples head n xs
      → (newer older : List A) × (somes samples ≡ newer ++ older) × (xs ≡ older ++ newer)
  Holds-rotation cap samples head n xs (filling free e eh en ec) =
      ([], xs, rw (e, somes-append, somes-map, somes-replicate, append-nil) refl, rw append-nil)
  Holds-rotation cap samples head n xs (full newer oldest older e ex eh en ec) =
      (newer, oldest ∷ older, rw (e, somes-append, somes-map, somes-map) refl, ex)

  pub Holds-sizes :
      (cap : ℕ) (samples : List (Option A)) (head n : ℕ) (xs : List A)
      → Holds cap samples head n xs
      → (n ≡ length xs) × (n ≤ cap) × (length samples ≡ cap) × (head < cap)
  Holds-sizes cap samples head n xs (filling free e eh en ec) = (
    en,
    omega arith,
    rw e (
        omega (
          arith,
          length-append (map some xs) (replicate (suc free) none),
          length-map-some xs,
          length-replicate {A = Option A} (suc free) none,
        )),
    omega arith,
  )
  Holds-sizes cap samples head n xs (full newer oldest older e ex eh en ec) = (
    rw ex (omega (arith, length-append older newer)),
    omega arith,
    rw e (
        omega (
          arith,
          length-append (map some newer) (map some (oldest ∷ older)),
          length-map-some newer,
          length-map-some older,
        )),
    omega arith,
  )

  pub Holds-new : (cap : ℕ) → 0 < cap → Holds {A = A} cap (replicate cap none) 0 0 []
  Holds-new zero h = absurd (omega arith)
  Holds-new (suc cap) h = filling cap refl refl refl (omega arith)
