-- ===== src/Text/Split.antt =====
-- Texts that were joined are split into their parts.
use mathlib.Core.List.{append_assoc, append-nil}
use esp_clock_sync.Prelude.{
  ℕ, ◌<◌, ◌≡◌, refl, ap, ◌∙◌, arith, false, List, [], ◌∷◌, ◌++◌, some, ◌==◌, All, length,
  length-append,
}
use esp_clock_sync.Text.{
  is_whitespace, split_words, split_whitespace, split_once, split_parts, split, strip_prefix,
}

-- One or more characters, none of them white space.
abbrev pub IsWord : List ℕ → Type 0
IsWord w = (0 < length w) × All (λ c. is_whitespace c ≡ false) w

-- Words with one space between them.
abbrev pub join : List (List ℕ) → List ℕ
join [] = []
join (w ∷ []) = w
join (w ∷ v ∷ ws) = w ++ (b' ' ∷ join (v ∷ ws))

split_words_space :
    (word rest : List ℕ)
    → 0 < length word
    → split_words word (b' ' ∷ rest) ≡ word ∷ split_words [] rest
unfolding split_words is_whitespace
split_words_space [] rest h = absurd (omega arith)
split_words_space (c ∷ word) rest h = refl

split_words_char :
    (word rest : List ℕ) (c : ℕ)
    → is_whitespace c ≡ false
    → split_words word (c ∷ rest) ≡ split_words (word ++ c ∷ []) rest
unfolding split_words
split_words_char word rest c h = rw h refl

split_words_word :
    (word w rest : List ℕ)
    → All (λ c. is_whitespace c ≡ false) w
    → 0 < length (word ++ w)
    → split_words word (w ++ (b' ' ∷ rest)) ≡ (word ++ w) ∷ split_words [] rest
split_words_word word [] rest h k =
    rw append-nil (split_words_space word rest (omega (arith, length-append word [])))
split_words_word word (c ∷ w) rest h k =
    split_words_char word (w ++ (b' ' ∷ rest)) c h.0
    ∙ split_words_word (word ++ c ∷ []) w rest h.1
        (omega (arith, length-append word (c ∷ []), length-append (word ++ c ∷ []) w))
    ∙ ap (λ v. v ∷ split_words [] rest) (append_assoc word (c ∷ []) w)

split_words_last :
    (word w : List ℕ)
    → All (λ c. is_whitespace c ≡ false) w
    → 0 < length (word ++ w)
    → split_words word w ≡ (word ++ w) ∷ []
split_words_last [] [] h k = absurd (omega arith)
split_words_last (d ∷ word) [] h k = rw append-nil (unfold split_words in refl)
split_words_last word (c ∷ w) h k =
    split_words_char word w c h.0
    ∙ split_words_last (word ++ c ∷ []) w h.1
        (omega (arith, length-append word (c ∷ []), length-append (word ++ c ∷ []) w))
    ∙ ap (λ v. v ∷ []) (append_assoc word (c ∷ []) w)

-- Words that were joined by spaces are what `split_whitespace` returns.
pub split_whitespace-join : (ws : List (List ℕ)) → All IsWord ws → split_whitespace (join ws) ≡ ws
unfolding split_whitespace
split_whitespace-join [] h = unfold split_words in refl
split_whitespace-join (w ∷ []) h = split_words_last [] w h.0.1 h.0.0
split_whitespace-join (w ∷ v ∷ ws) h =
    split_words_word [] w (join (v ∷ ws)) h.0.1 h.0.0
    ∙ ap (◌∷◌ w) (split_whitespace-join (v ∷ ws) h.1)

-- A key without the separator, the separator, and a value.
pub split_once-pair :
    (sep : ℕ) (key value : List ℕ)
    → All (λ c. (c == sep) ≡ false) key
    → split_once sep (key ++ (sep ∷ value)) ≡ some (key, value)
unfolding split_once
split_once-pair sep [] value h = ground arith
split_once-pair sep (c ∷ key) value h = rw (h.0, split_once-pair sep key value h.1) refl

pub strip_prefix-append : (ps cs : List ℕ) → strip_prefix ps (ps ++ cs) ≡ some cs
unfolding strip_prefix
strip_prefix-append [] cs = refl
strip_prefix-append (p ∷ ps) cs = ground (arith, strip_prefix-append ps cs)

-- Parts with one separator between them.
abbrev pub join_by : ℕ → List (List ℕ) → List ℕ
join_by sep [] = []
join_by sep (w ∷ []) = w
join_by sep (w ∷ v ∷ ws) = w ++ (sep ∷ join_by sep (v ∷ ws))

-- A part without the separator.
abbrev pub IsPart : ℕ → List ℕ → Type 0
IsPart sep w = All (λ c. (c == sep) ≡ false) w

split_parts-last :
    (sep : ℕ) (part w : List ℕ) → IsPart sep w → split_parts sep part w ≡ (part ++ w) ∷ []
unfolding split_parts
split_parts-last sep part [] h = rw append-nil refl
split_parts-last sep part (c ∷ w) h =
    rw h.0 (
      split_parts-last sep (part ++ c ∷ []) w h.1 ∙ ap (λ v. v ∷ []) (append_assoc part (c ∷ []) w))

split_parts-sep :
    (sep : ℕ) (part w rest : List ℕ)
    → IsPart sep w
    → split_parts sep part (w ++ (sep ∷ rest)) ≡ (part ++ w) ∷ split_parts sep [] rest
unfolding split_parts
split_parts-sep sep part [] rest h = rw append-nil (ground arith)
split_parts-sep sep part (c ∷ w) rest h = rw h.0 (
    split_parts-sep sep (part ++ c ∷ []) w rest h.1
    ∙ ap (λ v. v ∷ split_parts sep [] rest) (append_assoc part (c ∷ []) w))

-- Parts that were joined by a separator, one at least, are what `split` returns.
pub split-join_by :
    (sep : ℕ) (w : List ℕ) (ws : List (List ℕ))
    → All (IsPart sep) (w ∷ ws)
    → split sep (join_by sep (w ∷ ws)) ≡ w ∷ ws
unfolding split
split-join_by sep w [] h = split_parts-last sep [] w h.0
split-join_by sep w (v ∷ ws) h =
    split_parts-sep sep [] w (join_by sep (v ∷ ws)) h.0 ∙ ap (◌∷◌ w) (split-join_by sep v ws h.1)
