-- ===== src/Packet/RoundTrip.antt =====
-- `to_bytes` against `parse`, both ways.
use mathlib.Core.List.{append_assoc}
use esp_clock_sync.Prelude.{
  ℕ, ◌≤◌, ◌<◌, ◌^◌, ◌≡◌, refl, sym, ap, ap₂, ◌∙◌, List, [], ◌∷◌, ◌++◌, some, true, arith, length,
  take, drop, All, length-append, take-append, drop-append, All-take, All-drop, length-take,
  length-drop, take-append-drop, drop-drop, ◌-◌,
}
use esp_clock_sync.Packet.{SyncPacket, IsValid, magic, slice, bytes_eq, to_bytes, parse}
use esp_clock_sync.Packet.Bytes.{
  le_bytes, of_le_bytes, length-le_bytes, of_le_bytes-le_bytes, of_le_bytes-lt,
  le_bytes-of_le_bytes, IsByte,
}

-- The layout of the 24 bytes: magic, sequence number, time.
pub to_bytes_layout :
    (p : SyncPacket)
    → p.magic ≡ magic
    → to_bytes p ≡ magic ++ (le_bytes 4 p.seq ++ le_bytes 16 p.send_unix_ns)
unfolding to_bytes le_bytes
to_bytes_layout p e = rw e refl

pub length-to_bytes : (p : SyncPacket) → IsValid p → length (to_bytes p) ≡ 24
length-to_bytes p v = rw (to_bytes_layout p v.has_magic) (
    omega (
      arith,
      length-append (le_bytes 4 p.seq) (le_bytes 16 p.send_unix_ns),
      length-le_bytes 4 p.seq,
      length-le_bytes 16 p.send_unix_ns,
    ))

parse_layout :
    (s n rest : List ℕ)
    → length s ≡ 4
    → length n ≡ 16
    → parse ((magic ++ (s ++ n)) ++ rest)
      ≡ some (record { magic = magic; seq = of_le_bytes s; send_unix_ns = of_le_bytes n })
unfolding parse
parse_layout s n rest hs hn =
    rw
      (
        append_assoc s n rest,
        take-append 4 s (n ++ rest) (sym hs),
        drop-append 4 s (n ++ rest) (sym hs),
        take-append 16 n rest (sym hn),
        hs,
        hn,
      )
      (ground (arith, length-append s (n ++ rest), length-append n rest))

-- What `to_bytes` wrote, `parse` reads back, whatever bytes follow it.
pub parse-to_bytes :
    (p : SyncPacket) (rest : List ℕ) → IsValid p → parse (to_bytes p ++ rest) ≡ some p
parse-to_bytes p rest v = rw (to_bytes_layout p v.has_magic) (
    parse_layout (le_bytes 4 p.seq) (le_bytes 16 p.send_unix_ns) rest (length-le_bytes 4 p.seq)
      (length-le_bytes 16 p.send_unix_ns)
    ∙ ground (
      arith,
      of_le_bytes-le_bytes 4 p.seq (omega arith),
      of_le_bytes-le_bytes 16 p.send_unix_ns (omega arith),
    ))

bytes_eq→eq : (xs ys : List ℕ) → bytes_eq xs ys ≡ true → xs ≡ ys
bytes_eq→eq [] [] h = refl
bytes_eq→eq [] (y ∷ ys) h = cc
bytes_eq→eq (x ∷ xs) [] h = cc
bytes_eq→eq (x ∷ xs) (y ∷ ys) h = ground (arith, bytes_eq→eq xs ys)

-- What a successful `parse` has seen.
pub parse_inversion :
    (buf : List ℕ) (p : SyncPacket)
    → parse buf ≡ some p
    → (24 ≤ length buf)
      × (take 4 buf ≡ magic)
      × (p ≡ record {
        magic = magic;
        seq = of_le_bytes (slice buf 4 8);
        send_unix_ns = of_le_bytes (slice buf 8 24);
      })
unfolding parse
parse_inversion buf p h = ground (arith, bytes_eq→eq (take 4 buf) magic)

split_fields :
    (buf : List ℕ) → buf ≡ take 4 buf ++ (slice buf 4 8 ++ (slice buf 8 24 ++ drop 24 buf))
split_fields buf =
    sym (take-append-drop 4 buf)
    ∙ ap (λ xs. take 4 buf ++ xs)
        (sym (take-append-drop 4 (drop 4 buf))
          ∙ ap (λ xs. slice buf 4 8 ++ xs)
              (drop-drop 4 4 buf
                ∙ sym (take-append-drop 16 (drop 8 buf))
                ∙ ap (λ xs. slice buf 8 24 ++ xs) (drop-drop 16 8 buf)))

-- A slice of `k` bytes, read as a number and written again.
slice_number :
    (buf : List ℕ) (a b k : ℕ)
    → All IsByte buf
    → b - a ≡ k
    → b ≤ length buf
    → a ≤ b
    → (le_bytes k (of_le_bytes (slice buf a b)) ≡ slice buf a b)
      × (of_le_bytes (slice buf a b) < 256 ^ k)
slice_number buf a b k h e hb hab =
    rw (← len) (le_bytes-of_le_bytes _ bytes, of_le_bytes-lt _ bytes)
  where
    bytes : All IsByte (slice buf a b)
    bytes = All-take IsByte (b - a) (drop a buf) (All-drop IsByte a buf h)

    len : length (slice buf a b) ≡ k
    len = length-take (b - a) (drop a buf) (omega (arith, length-drop a buf)) ∙ e

-- A buffer of bytes that `parse` accepts starts with the 24 bytes that `to_bytes` writes for the
-- result, and the result is a valid packet.
pub to_bytes-parse :
    (buf : List ℕ) (p : SyncPacket)
    → All IsByte buf
    → parse buf ≡ some p
    → (buf ≡ to_bytes p ++ drop 24 buf) × IsValid p
to_bytes-parse buf p h e =
    let (long, starts, parsed) = parse_inversion buf p e in
    let (seq, seq_fits) = slice_number buf 4 8 4 h refl (omega arith) (omega arith) in
    let (ns, ns_fits) = slice_number buf 8 24 16 h refl (omega arith) (omega arith) in
    let s = slice buf 4 8 in
    let n = slice buf 8 24 in
    let written : to_bytes p ≡ magic ++ (s ++ n) =
      rw parsed (to_bytes_layout _ refl ∙ ap₂ (λ x y. magic ++ (x ++ y)) seq ns) in
    (
      split_fields buf
          ∙ ap (λ m. m ++ (s ++ (n ++ drop 24 buf))) starts
          ∙ ap (λ xs. magic ++ xs) (sym (append_assoc s n (drop 24 buf)))
          ∙ ap (λ xs. xs ++ drop 24 buf) (sym written),
      rw parsed (record { has_magic = refl; seq_fits = seq_fits; ns_fits = ns_fits }),
    )
