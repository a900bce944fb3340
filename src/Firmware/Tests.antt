-- ===== src/Firmware/Tests.antt =====
-- The line reader on a line with a correction.
use esp_clock_sync.Prelude.{ℕ, ◌≡◌, refl, inl, inr, List, [], ◌∷◌, ◌++◌, some, arith}
use esp_clock_sync.Firmware.{Reading, byte, failed, nothing_read, read_line}
use esp_clock_sync.Text.{codes, is_whitespace, as_bytes}
use esp_clock_sync.Firmware.Boot.{prompt}
use esp_clock_sync.Firmware.Prompt.{keys, address_text, prompt-keys}
use esp_clock_sync.Firmware.Edit.{
  IsUndone, blank, error, carriage_return, erased, typed, read_line-typed,
}

-- `c`, `x`, `y`, two erasures, `o`: the line `co`.
abbrev pieces : List (List Reading × ℕ)
pieces = ([], b'c') ∷ (byte b'x' ∷ byte b'y' ∷ byte 0x7f ∷ failed ∷ byte 0x08 ∷ [], b'o') ∷ []

corrected-IsUndone : IsUndone (byte b'x' ∷ byte b'y' ∷ byte 0x7f ∷ failed ∷ byte 0x08 ∷ [])
corrected-IsUndone =
    erased {xs = byte b'y' ∷ byte 0x7f ∷ failed ∷ []}
      (omega arith, omega arith, omega arith, omega arith) (inl refl)
      (erased {xs = []} (omega arith, omega arith, omega arith, omega arith) (inr refl) blank
        (error blank))
      blank

read_line-typed_example :
    read_line (typed pieces (byte 0x0d ∷ byte 0x0a ∷ nothing_read ∷ []))
    ≡ some (b'c' ∷ b'o' ∷ [], nothing_read ∷ [])
read_line-typed_example =
    read_line-typed pieces (byte 0x0d ∷ []) (nothing_read ∷ [])
      (
        (blank, (omega arith, omega arith, omega arith, omega arith)),
        ((corrected-IsUndone, (omega arith, omega arith, omega arith, omega arith)), tt),
      )
      (carriage_return blank)

-- The address is typed with blanks around it.
prompt-keys_example :
    (prompt (
        keys (codes "lab") (
          keys
            (codes "secret")
            (keys (codes " " ++ (address_text 192 168 1 20 ++ codes "  ")) (nothing_read ∷ []))))
      ≡ some (record {
        ssid = codes "lab";
        password = codes "secret";
        server = 192 ∷ 168 ∷ 1 ∷ 20 ∷ [];
        rest = nothing_read ∷ [];
      }))
    × (as_bytes (codes "lab") ≡ codes "lab")
    × (as_bytes (codes "secret") ≡ codes "secret")
unfolding is_whitespace
prompt-keys_example =
    prompt-keys (codes "lab") (codes "secret") (codes " ") (codes "  ") 192 168 1 20
      (nothing_read ∷ [])
      (
        (omega arith, refl, refl, refl, refl),
        ((omega arith, refl, refl, refl, refl), ((omega arith, refl, refl, refl, refl), tt)),
      )
      (
        (omega arith, refl, refl, refl, refl),
        (
          (omega arith, refl, refl, refl, refl),
          (
            (omega arith, refl, refl, refl, refl),
            (
              (omega arith, refl, refl, refl, refl),
              ((omega arith, refl, refl, refl, refl), ((omega arith, refl, refl, refl, refl), tt)),
            ),
          ),
        ),
      )
      (((omega arith, refl, refl, refl, refl), tt), (refl, tt))
      (
        ((omega arith, refl, refl, refl, refl), ((omega arith, refl, refl, refl, refl), tt)),
        (refl, (refl, tt)),
      )
      (omega arith, (omega arith, (omega arith, (omega arith, tt))))
