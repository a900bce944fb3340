-- ===== src/Packet/Find.antt =====
-- `find_in_frame` is the search for the first suffix that parses, and never reads out of range.
use esp_clock_sync.Prelude.{
  ℕ, zero, suc, ◌+◌, ◌-◌, ◌≤◌, ◌<◌, ◌≡◌, refl, ap, ◌∙◌, List, [], ◌∷◌, ◌++◌, Option, none, some,
  false, inl, inr, arith, ltb, Bool-cases, length, take, drop, length-drop, length-append,
  drop_cons, get_elem?-drop, ret,
}
use native.Mathlib.Numerals.{add-one}
use esp_clock_sync.Packet.{
  SyncPacket, IsValid, magic, size, bytes_eq, to_bytes, parse, bytes_match, find_loop,
  find_in_frame, or_else,
}
use esp_clock_sync.Packet.RoundTrip.{parse-to_bytes, length-to_bytes}

-- The reference: the packet of the longest suffix that parses.
unfoldable pub scan : List ℕ → Option SyncPacket
scan [] = none
scan (b ∷ bs) = elim (parse (b ∷ bs)) [ some p ↦ some p | none ↦ scan bs ]

parse_short : (xs : List ℕ) → length xs < 24 → parse xs ≡ none
unfolding parse
parse_short xs h = ground arith

parse_no_magic : (xs : List ℕ) → bytes_eq (take 4 xs) magic ≡ false → parse xs ≡ none
unfolding parse
parse_no_magic xs h = ground arith

scan_short : (xs : List ℕ) → length xs < 24 → scan xs ≡ none
unfolding scan
scan_short [] h = refl
scan_short (b ∷ bs) h = rw (parse_short (b ∷ bs) h, scan) (scan_short bs (omega arith))

-- The comparison of the code, as one test on the bytes from `i` on.
bytes_match-take :
    (buf : List ℕ) (i : ℕ) (ms : List ℕ)
    → i + length ms ≤ length buf
    → bytes_match buf i ms ≡ ret (bytes_eq (take (length ms) (drop i buf)) ms)
unfolding bytes_match
bytes_match-take buf i [] h = refl
bytes_match-take buf i (m ∷ ms) h =
    let (b, e) = drop_cons i buf (omega arith) in
    ground (arith, get_elem?-drop i buf b _ e, e, add-one i, bytes_match-take buf (suc i) ms)

-- One round of the loop tries to parse the bytes from `i` on.
find_loop_round :
    (buf : List ℕ) (n i : ℕ)
    → i + 4 ≤ length buf
    → find_loop buf (suc n) i ≡ or_else (parse (drop i buf)) (find_loop buf n (i + 1))
unfolding find_loop
find_loop_round buf n i h =
    rw (bytes_match-take buf i magic h) (ground (arith, parse_no_magic (drop i buf)))

scan_cons : (b : ℕ) (bs : List ℕ) → or_else (parse (b ∷ bs)) (ret (scan bs)) ≡ ret (scan (b ∷ bs))
unfolding scan
scan_cons b bs = ground arith

find_loop-scan :
    (buf : List ℕ) (n i : ℕ) → i + n + 23 ≡ length buf → find_loop buf n i ≡ ret (scan (drop i buf))
find_loop-scan buf zero i h =
    rw (scan_short (drop i buf) (omega (arith, length-drop i buf))) (unfold find_loop in refl)
find_loop-scan buf (suc n) i h =
    let (b, e) = drop_cons i buf (omega arith) in
    rw
      (
        find_loop_round buf n i (omega arith),
        add-one,
        find_loop-scan buf n (suc i) (omega arith),
        e,
      )
      (scan_cons b (drop (suc i) buf))

-- On every buffer `find_in_frame` ends with no panic, and returns the packet of the first suffix
-- of the buffer that parses, or none where no suffix does.
pub find_in_frame-scan : (buf : List ℕ) → find_in_frame buf ≡ ret (scan buf)
unfolding find_in_frame
find_in_frame-scan buf = elim (Bool-cases (ltb (length buf) size)) [
  | inl short ↦ rw (short, scan_short buf (ground arith)) refl
  | inr long ↦ rw long (find_loop-scan buf (length buf - size + 1) 0 (ground arith))
]

-- The magic starts nowhere in `header` when `tail` follows it.
abbrev pub NoMagic : List ℕ → List ℕ → Type 0
NoMagic [] tail = Unit
NoMagic (b ∷ header) tail =
    (bytes_eq (take 4 (b ∷ (header ++ tail))) magic ≡ false) × NoMagic header tail

scan_header : (header tail : List ℕ) → NoMagic header tail → scan (header ++ tail) ≡ scan tail
unfolding scan
scan_header [] tail h = refl
scan_header (b ∷ header) tail h = rw (parse_no_magic _ h.0, scan) (scan_header header tail h.1)

scan_parsed :
    (buf : List ℕ) (p : SyncPacket) → 0 < length buf → parse buf ≡ some p → scan buf ≡ some p
unfolding scan
scan_parsed [] p h e = absurd (omega arith)
scan_parsed (b ∷ bs) p h e = rw (e, scan) refl

-- A packet behind headers in which the magic does not start is found, whatever follows it.
pub find_in_frame-to_bytes :
    (header rest : List ℕ) (p : SyncPacket)
    → IsValid p
    → NoMagic header (to_bytes p ++ rest)
    → find_in_frame (header ++ (to_bytes p ++ rest)) ≡ ret (some p)
find_in_frame-to_bytes header rest p v h =
    find_in_frame-scan _
    ∙ ap ret (
        scan_header header _ h
        ∙ scan_parsed _ p (omega (arith, length-append (to_bytes p) rest, length-to_bytes p v))
            (parse-to_bytes p rest v))
