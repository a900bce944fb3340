-- ===== src/Packet/Tests.antt =====
-- The packet's theorems at concrete packets and frames.
use esp_clock_sync.Prelude.{ℕ, ◌≡◌, refl, List, [], ◌∷◌, ◌++◌, some, arith, All, drop, ret}
use esp_clock_sync.Packet.{SyncPacket, magic, IsValid, parse, to_bytes, find_in_frame}
use esp_clock_sync.Packet.Bytes.{IsByte, of_le_bytes}
use esp_clock_sync.Packet.RoundTrip.{parse-to_bytes, to_bytes-parse}
use esp_clock_sync.Packet.Find.{scan, NoMagic, find_in_frame-scan, find_in_frame-to_bytes}

abbrev pkt : SyncPacket
pkt = record { magic = magic; seq = 258; send_unix_ns = 1_700_000_000_000_000_000 }

pkt-IsValid : IsValid pkt
pkt-IsValid = record { has_magic = refl; seq_fits = omega arith; ns_fits = omega arith }

-- Bytes of a header that have the magic's first byte, but not the magic.
abbrev header : List ℕ
header = b'C' ∷ b'S' ∷ 0 ∷ 7 ∷ []

abbrev trailer : List ℕ
trailer = 1 ∷ 2 ∷ 3 ∷ []

parse-to_bytes_example : parse (to_bytes pkt ++ trailer) ≡ some pkt
parse-to_bytes_example = parse-to_bytes pkt trailer pkt-IsValid

abbrev zero_packet : List ℕ
zero_packet =
    b'C' ∷ b'S' ∷ b'Y' ∷ b'1' ∷ 1 ∷ 0 ∷ 0 ∷ 0 ∷ 5 ∷ 0 ∷ 0 ∷ 0 ∷ 0 ∷ 0 ∷ 0 ∷ 0 ∷ 0 ∷ 0 ∷ 0 ∷ 0 ∷ 0
    ∷ 0 ∷ 0 ∷ 0 ∷ 9 ∷ []

abbrev five : SyncPacket
five = record { magic = magic; seq = 1; send_unix_ns = 5 }

zero_packet_bytes : All IsByte zero_packet
zero_packet_bytes = ground arith

zero_packet_parses : parse zero_packet ≡ some five
unfolding parse of_le_bytes
zero_packet_parses = refl

to_bytes-parse_example : (zero_packet ≡ to_bytes five ++ drop 24 zero_packet) × IsValid five
to_bytes-parse_example = to_bytes-parse zero_packet five zero_packet_bytes zero_packet_parses

find_in_frame-scan_example :
    find_in_frame (header ++ zero_packet) ≡ ret (scan (header ++ zero_packet))
find_in_frame-scan_example = find_in_frame-scan (header ++ zero_packet)

header_clear : NoMagic header (to_bytes pkt ++ trailer)
header_clear = (refl, (refl, (refl, (refl, tt))))

find_in_frame-to_bytes_example :
    find_in_frame (header ++ (to_bytes pkt ++ trailer)) ≡ ret (some pkt)
find_in_frame-to_bytes_example = find_in_frame-to_bytes header trailer pkt pkt-IsValid header_clear
