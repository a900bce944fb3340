-- ===== src/Server/Setup.antt =====
-- crates/clock-sync-server/src/main.rs, `bind_to_device` and `main` up to its loop. What the socket
-- answers is an argument.
use esp_clock_sync.Prelude.{
  ℕ, ◌≡◌, ◌↔◌, inl, inr, refl, arith, Bool, true, false, List, [], ◌∷◌, ◌++◌, Option, none, some,
  ◌==◌, All, Bool-cases, length, if◌then◌else◌,
}
use esp_clock_sync.Prelude.Int.{ℤ, pos, eqb_ℤ}
use esp_clock_sync.Server.{Cli}

pub data SetupError : Type 0 where
  not_bound : SetupError
  no_broadcast : SetupError
  has_nul : SetupError
  so_bindtodevice : SetupError
  unsupported : SetupError

-- Whether the target is Linux, the answers of `bind` and `set_broadcast`, and the value of
-- `setsockopt` for an option value and its length.
pub record Answers : Type 0 where
  pub linux : Bool
  pub binds : Bool
  pub broadcasts : Bool
  pub setsockopt : List ℕ → ℕ → ℤ

-- `CString::new` refuses a NUL byte.
unfoldable pub contains_nul : List ℕ → Bool
contains_nul [] = false
contains_nul (b ∷ bs) = if b == 0 then true else contains_nul bs

-- `as_bytes_with_nul`
abbrev pub with_nul : List ℕ → List ℕ
with_nul bytes = bytes ++ 0 ∷ []

-- `bind_to_device`, for Linux and for other targets: what fails, if something does.
unfoldable pub bind_to_device : Answers → List ℕ → Option SetupError
bind_to_device answers iface =
    if answers.linux
    then (if contains_nul iface
        then some has_nul
        else if eqb_ℤ (answers.setsockopt (with_nul iface) (length (with_nul iface))) (pos 0)
        then none
        else some so_bindtodevice)
    else some unsupported

unfoldable pub bind_iface : Answers → Option (List ℕ) → Option SetupError
bind_iface answers none = none
bind_iface answers (some iface) = bind_to_device answers iface

unfoldable pub setup : Answers → Cli → Option SetupError
setup answers cli =
    if answers.binds
    then (if answers.broadcasts then bind_iface answers cli.bind_iface else some no_broadcast)
    else some not_bound

-- The name can be handed to the kernel, which takes it with the NUL byte behind it.
pub record IsDevice (answers : Answers) (iface : List ℕ) : Type 0 where
  pub linux : answers.linux ≡ true
  pub no_nul : All (λ b. (b == 0) ≡ false) iface
  pub takes : eqb_ℤ (answers.setsockopt (iface ++ 0 ∷ []) (length (iface ++ 0 ∷ []))) (pos 0) ≡ true

abbrev pub IsDeviceOption : Answers → Option (List ℕ) → Type 0
IsDeviceOption answers none = Unit
IsDeviceOption answers (some iface) = IsDevice answers iface

contains_nul-none : (bs : List ℕ) → (contains_nul bs ≡ false) ↔ All (λ b. (b == 0) ≡ false) bs
unfolding contains_nul
contains_nul-none [] = ((λ h. tt), (λ h. refl))
contains_nul-none (b ∷ bs) = let ih = contains_nul-none bs in ground arith

bind_to_device-IsDevice :
    (answers : Answers) (iface : List ℕ)
    → (bind_to_device answers iface ≡ none) ↔ IsDevice answers iface
unfolding bind_to_device
bind_to_device-IsDevice answers iface =
    let (none_in, no_nul) = contains_nul-none iface in
    let ret = eqb_ℤ (answers.setsockopt (iface ++ 0 ∷ []) (length (iface ++ 0 ∷ []))) (pos 0) in
    (
      λ h. (elim (Bool-cases answers.linux) [
        | inl on ↦ elim (Bool-cases (contains_nul iface)) [
          | inl nul ↦ absurd (let no = rw (on, nul) at h in cc)
          | inr free ↦
              elim (Bool-cases
                (eqb_ℤ (answers.setsockopt (iface ++ 0 ∷ []) (length (iface ++ 0 ∷ []))) (pos 0))) [
                  | inl taken ↦ record { linux = on; no_nul = none_in free; takes = taken }
                  | inr refused ↦ absurd (let no = rw (on, free, refused) at h in cc)
                ]
        ]
        | inr off ↦ absurd (let no = rw off at h in cc)
      ]),
      λ d. rw (d.linux, no_nul d.no_nul, d.takes) refl,
    )

bind_iface-IsDevice :
    (answers : Answers) (iface : Option (List ℕ))
    → (bind_iface answers iface ≡ none) ↔ IsDeviceOption answers iface
unfolding bind_iface
bind_iface-IsDevice answers none = ((λ h. tt), (λ h. refl))
bind_iface-IsDevice answers (some iface) = bind_to_device-IsDevice answers iface

guarded :
    (b c : Bool) (o : Option SetupError)
    → ((if b then (if c then o else some no_broadcast) else some not_bound) ≡ none)
      ↔ ((b ≡ true) × (c ≡ true) × (o ≡ none))
guarded b c o = ground arith

-- The server reaches its loop exactly where the socket is bound, may broadcast and, if an interface
-- is named, the target is Linux and the kernel takes the name, which has no NUL byte, with a NUL byte
-- behind it.
pub setup-none :
    (answers : Answers) (cli : Cli)
    → (setup answers cli ≡ none) ↔ (
        (answers.binds ≡ true)
        × (answers.broadcasts ≡ true)
        × IsDeviceOption answers cli.bind_iface)
unfolding setup
setup-none answers cli =
    let (a, b) = bind_iface-IsDevice answers cli.bind_iface in
    let (p, q) = guarded answers.binds answers.broadcasts (bind_iface answers cli.bind_iface) in
    ((λ h. let (x, y, z) = p h in (x, y, a z)), (λ h. q (h.0, h.1, b h.2)))
