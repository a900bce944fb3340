-- ===== src/Firmware/Edit.antt =====
-- The line that is left of what was typed with corrections.
use esp_clock_sync.Prelude.{
  ℕ, ◌≡◌, refl, sym, ap, ◌∙◌, ◌≢◌, ◌⊎◌, List, [], ◌∷◌, ◌++◌, map, some, All, arith,
}
use mathlib.Core.List.{append_assoc, append-nil}
use esp_clock_sync.Firmware.{Reading, nothing_read, byte, failed, pop, edit, read_from, read_line}

-- A byte that is added to the line, and one that takes the last byte away.
abbrev pub IsText : ℕ → Type 0
IsText b = (b ≢ 0x0a) × (b ≢ 0x0d) × (b ≢ 0x08) × (b ≢ 0x7f)

abbrev pub IsErase : ℕ → Type 0
IsErase b = (b ≡ 0x08) ⊎ (b ≡ 0x7f)

-- Readings in which each byte of text is erased again, like brackets that match.
pub data IsUndone : List Reading → Type 0 where
  blank : IsUndone []
  no_byte : {rs : List Reading} → IsUndone rs → IsUndone (nothing_read ∷ rs)
  error : {rs : List Reading} → IsUndone rs → IsUndone (failed ∷ rs)
  carriage_return : {rs : List Reading} → IsUndone rs → IsUndone (byte 0x0d ∷ rs)
  erased :
      {xs ys : List Reading} {b e : ℕ}
      → IsText b
      → IsErase e
      → IsUndone xs
      → IsUndone ys
      → IsUndone (byte b ∷ xs ++ byte e ∷ ys)

pop-snoc : (out : List ℕ) (b : ℕ) → pop (out ++ b ∷ []) ≡ out
unfolding pop
pop-snoc [] b = refl
pop-snoc (c ∷ []) b = refl
pop-snoc (c ∷ d ∷ out) b = ap (◌∷◌ c) (pop-snoc (d ∷ out) b)

read_from_text :
    (out : List ℕ) (b : ℕ) (rs : List Reading)
    → IsText b
    → read_from out (byte b ∷ rs) ≡ read_from (out ++ b ∷ []) rs
unfolding read_from edit
read_from_text out b rs (h, i, j, k) = ground arith

read_from_erase :
    (out : List ℕ) (b e : ℕ) (rs : List Reading)
    → IsErase e
    → read_from (out ++ b ∷ []) (byte e ∷ rs) ≡ read_from out rs
unfolding read_from edit
read_from_erase out b e rs h = let back = pop-snoc out b in ground arith

read_from-undone :
    {u : List Reading} (out : List ℕ) (rs : List Reading)
    → IsUndone u
    → read_from out (u ++ rs) ≡ read_from out rs
unfolding read_from edit
read_from-undone out rs blank = refl
read_from-undone out rs (no_byte v) = read_from-undone out rs v
read_from-undone out rs (error v) = read_from-undone out rs v
read_from-undone out rs (carriage_return v) = read_from-undone out rs v
read_from-undone out rs (erased {xs} {ys} {b} {e} text erase vx vy) =
    ap (λ l. read_from out (byte b ∷ l)) (append_assoc xs (byte e ∷ ys) rs)
    ∙ read_from_text out b (xs ++ (byte e ∷ ys ++ rs)) text
    ∙ read_from-undone (out ++ b ∷ []) (byte e ∷ ys ++ rs) vx
    ∙ read_from_erase out b e (ys ++ rs) erase
    ∙ read_from-undone out rs vy

-- Bytes, each behind some readings.
unfoldable pub typed : List (List Reading × ℕ) → List Reading → List Reading
typed [] rs = rs
typed ((u, b) ∷ ps) rs = u ++ byte b ∷ typed ps rs

read_from-typed :
    (ps : List (List Reading × ℕ)) (out : List ℕ) (last rest : List Reading)
    → All (λ p. IsUndone p.0 × IsText p.1) ps
    → IsUndone last
    → read_from out (typed ps (last ++ byte 0x0a ∷ rest)) ≡ some (out ++ map (λ p. p.1) ps, rest)
unfolding typed read_from
read_from-typed [] out last rest h v =
    read_from-undone out (byte 0x0a ∷ rest) v ∙ ap (λ l. some (l, rest)) (sym (append-nil out))
read_from-typed ((u, b) ∷ ps) out last rest h v =
    read_from-undone out (byte b ∷ typed ps (last ++ byte 0x0a ∷ rest)) h.0.0
    ∙ read_from_text out b (typed ps (last ++ byte 0x0a ∷ rest)) h.0.1
    ∙ read_from-typed ps (out ++ b ∷ []) last rest h.1 v
    ∙ ap (λ l. some (l, rest)) (append_assoc out (b ∷ []) (map (λ p. p.1) ps))

-- The line that is read holds, up to the line feed, one character for each byte that was typed and not
-- erased again: the one with the number of that byte, in their order.
-- Carriage returns, reads without a byte and failed reads leave no trace in it.
pub read_line-typed :
    (ps : List (List Reading × ℕ)) (last rest : List Reading)
    → All (λ p. IsUndone p.0 × IsText p.1) ps
    → IsUndone last
    → read_line (typed ps (last ++ byte 0x0a ∷ rest)) ≡ some (map (λ p. p.1) ps, rest)
read_line-typed ps last rest h v = read_from-typed ps [] last rest h v
