-- ===== src/Packet.antt =====
-- crates/clock-sync/src/lib.rs, `SyncPacket`: the payload that the server broadcasts. A byte is a
-- number below 256, a slice is a list of bytes.
pub mod Bytes
pub mod RoundTrip
pub mod Find
mod Tests
use mathlib.Core.Bool.{not}
use esp_clock_sync.Prelude.{
  ℕ, zero, suc, ◌+◌, ◌-◌, ◌^◌, ◌<◌, ◌≡◌, List, [], ◌∷◌, ◌++◌, Option, none, some, Bool, true, false,
  ◌&&◌, ◌||◌, ltb, ◌==◌, if◌then◌else◌, length, take, drop, replicate, get_elem?, Exec, ret, panic,
  ◌>>=◌,
}
use Bytes.{le_bytes, of_le_bytes}

abbrev pub magic : List ℕ
magic = b'C' ∷ b'S' ∷ b'Y' ∷ b'1' ∷ []

-- `SyncPacket::SIZE`, the size of the struct.
abbrev pub size : ℕ
size = 24

pub record SyncPacket : Type 0 where
  pub magic : List ℕ
  pub seq : ℕ
  pub send_unix_ns : ℕ

-- `out[i..i + xs.len()].copy_from_slice(xs)`
abbrev copy_from_slice : List ℕ → ℕ → List ℕ → List ℕ
copy_from_slice out i xs = take i out ++ (xs ++ drop (i + length xs) out)

unfoldable pub to_bytes : SyncPacket → List ℕ
to_bytes p =
    let out = replicate size 0 in
    let out' = copy_from_slice out 0 p.magic in
    let out'' = copy_from_slice out' 4 (le_bytes 4 p.seq) in
    copy_from_slice out'' 8 (le_bytes 16 p.send_unix_ns)

-- `buf[a..b]`
abbrev pub slice : List ℕ → ℕ → ℕ → List ℕ
slice buf a b = take (b - a) (drop a buf)

abbrev pub bytes_eq : List ℕ → List ℕ → Bool
bytes_eq [] [] = true
bytes_eq [] (y ∷ ys) = false
bytes_eq (x ∷ xs) [] = false
bytes_eq (x ∷ xs) (y ∷ ys) = x == y && bytes_eq xs ys

-- `slice.try_into().ok()`, into an array of `k` bytes.
abbrev pub to_array : ℕ → List ℕ → Option (List ℕ)
to_array k xs = if length xs == k then some xs else none

-- The two conversions of `parse`, each with its `?`.
abbrev parse_fields : Option (List ℕ) → Option (List ℕ) → Option SyncPacket
parse_fields none ns = none
parse_fields (some seq) none = none
parse_fields (some seq) (some ns) =
    some (record { magic = magic; seq = of_le_bytes seq; send_unix_ns = of_le_bytes ns })

unfoldable pub parse : List ℕ → Option SyncPacket
parse buf =
    if ltb (length buf) size || not (bytes_eq (slice buf 0 4) magic)
    then none
    else parse_fields (to_array 4 (slice buf 4 8)) (to_array 16 (slice buf 8 24))

-- `buf[i]`, which panics out of range.
abbrev pub index : List ℕ → ℕ → Exec ℕ
index buf i = elim (get_elem? buf i) [ none ↦ panic | some b ↦ ret b ]

-- `buf[i] == m[0] && buf[i + 1] == m[1] && …`, which stops at the first byte that differs.
unfoldable pub bytes_match : List ℕ → ℕ → List ℕ → Exec Bool
bytes_match buf i [] = ret true
bytes_match buf i (m ∷ ms) = do
  b ← index buf i
  let rest = bytes_match buf (i + 1) ms
  if b == m then rest else ret false

-- `if let Some(pkt) = parse(..) { return Some(pkt) }`, and the rest of the loop.
abbrev pub or_else : Option SyncPacket → Exec (Option SyncPacket) → Exec (Option SyncPacket)
or_else (some p) rest = ret (some p)
or_else none rest = rest

-- The rounds of `while i <= last` that are left, and `i`.
unfoldable pub find_loop : List ℕ → ℕ → ℕ → Exec (Option SyncPacket)
unfolding bytes_match
find_loop buf zero i = ret none
find_loop buf (suc n) i =
    let rest = find_loop buf n (i + 1) in
    bytes_match buf i magic >>= λ hit. if hit then or_else (parse (drop i buf)) rest else rest

unfoldable pub find_in_frame : List ℕ → Exec (Option SyncPacket)
unfolding find_loop
find_in_frame buf =
    if ltb (length buf) size then ret none else find_loop buf (length buf - size + 1) 0

-- A packet that a Rust program can hold, with the magic of this protocol.
pub record IsValid (p : SyncPacket) : Type 0 where
  pub has_magic : p.magic ≡ magic
  pub seq_fits : p.seq < 2 ^ 32
  pub ns_fits : p.send_unix_ns < 2 ^ 128
