-- ===== src/Firmware.antt =====
-- crates/clock-sync-firmware/src/main.rs: the line reader of the prompt, on what its reads of the
-- UART return, and the lines that the board reports. The echo and sockets are outside.
pub mod Edit
pub mod Connection
pub mod Address
pub mod Boot
pub mod Prompt
mod Tests
use esp_clock_sync.Prelude.{ℕ, List, [], ◌∷◌, ◌++◌, Option, none, some, ◌||◌, ◌==◌, if◌then◌else◌}
use esp_clock_sync.Text.{codes, decimal, decimal_signed}
use esp_clock_sync.Client.{Client}
use esp_clock_sync.Client.Handle.{
  quality, synced_ns_now, samples_dropped, frames_seen, frames_matched,
}
use esp_clock_sync.TestRig.{Mac, mac_text}

-- What a read returns: `Ok(0)`, a byte, or an error.
pub data Reading : Type 0 where
  nothing_read : Reading
  byte : (b : ℕ) → Reading
  failed : Reading

-- `String::pop`
unfoldable pub pop : List ℕ → List ℕ
pop [] = []
pop (c ∷ []) = []
pop (c ∷ d ∷ cs) = c ∷ pop (d ∷ cs)

-- `b as char`: the code point with the byte's number. From 0x80 on it is not the byte, but two of them
-- in the UTF-8 of the `String`.
abbrev pub as_char : ℕ → ℕ
as_char b = b

-- The arms of the match on a byte, behind that of the line feed, on the code points of the line.
unfoldable pub edit : List ℕ → ℕ → List ℕ
edit out b =
    if b == 0x0d then out else if b == 0x08 || b == 0x7f then pop out else out ++ as_char b ∷ []

-- The loop: the line and the readings behind it, or none where it still waits after all of them.
unfoldable pub read_from : List ℕ → List Reading → Option (List ℕ × List Reading)
read_from out [] = none
read_from out (nothing_read ∷ rs) = read_from out rs
read_from out (failed ∷ rs) = read_from out rs
read_from out (byte b ∷ rs) =
    let later = read_from (edit out b) rs in if b == 0x0a then some (out, rs) else later

abbrev pub read_line : List Reading → Option (List ℕ × List Reading)
read_line rs = read_from [] rs

-- The line of a heartbeat, given the synced time.
unfoldable pub heartbeat_line : Client → Mac → Option ℕ → List ℕ
heartbeat_line c m (some ns) =
    codes "hb mac="
    ++ (mac_text m
        ++ (codes " synced_ns="
            ++ (decimal ns
                ++ (codes " samples="
                    ++ (decimal (quality c).n_samples
                        ++ (codes " drift_ppb="
                            ++ (decimal_signed (quality c).drift_ppb
                                ++ (codes " p95_us="
                                    ++ (decimal (quality c).residual_us_p95
                                        ++ (codes " dropped="
                                            ++ (decimal (samples_dropped c) ++ codes "\n")))))))))))
heartbeat_line c m none =
    codes "hb mac="
    ++ (mac_text m
        ++ (codes " synced=NONE samples="
            ++ (decimal (quality c).n_samples
                ++ (codes " seen="
                    ++ (decimal (frames_seen c)
                        ++ (codes " matched=" ++ (decimal (frames_matched c) ++ codes "\n")))))))

-- One round of the heartbeat, given the `Instant` clock.
abbrev pub heartbeat : Client → Mac → ℕ → List ℕ
heartbeat c m now_us = heartbeat_line c m (synced_ns_now c now_us)

-- The line of a round with no server.
unfoldable pub sync_only_line : Client → List ℕ
sync_only_line c =
    codes "no server IP — sync-only: samples="
    ++ (decimal (quality c).n_samples
        ++ (codes " drift_ppb="
            ++ (decimal_signed (quality c).drift_ppb
                ++ (codes " p95_us="
                    ++ (decimal (quality c).residual_us_p95
                        ++ (codes " seen="
                            ++ (decimal (frames_seen c)
                                ++ (codes " matched=" ++ decimal (frames_matched c)))))))))
