-- ===== src/Fortinet/Frame/Examples.antt =====
-- Runs of the frame code, and its theorems at a small packet.
use fortivpn_go.Prelude.{ℕ, ◌≤◌, ◌≡◌, refl, inl, List, [], ◌∷◌, ◌++◌, arith, length, ok, text_eq}
use fortivpn_go.Wire.{get_u16, eof, Source, read_full, WriteOutcome, wrote, write_failed}
use fortivpn_go.Wire.Writes.{IsSteady}
use fortivpn_go.Fortinet.Frame.{
  packet_version, ether_type_for_family, family_for_ether_type, make_data_frame, parse_frame,
  read_frame, check_frame, read_packet, write_packet,
}
use fortivpn_go.Fortinet.Frame.RoundTrip.{IsPacket, frame_of, FitsFrame, read_packet-frame_of}
use fortivpn_go.Fortinet.Frame.Sound.{frame_with, read_packet_sound}
use fortivpn_go.Fortinet.Frame.Sent.{write_packet_sent, write_packet-front}

abbrev packet : List ℕ
packet = 0x45 ∷ 0 ∷ 7 ∷ []

abbrev framed : List ℕ
framed = 0 ∷ 13 ∷ 65 ∷ 68 ∷ 0 ∷ 7 ∷ 0 ∷ 0 ∷ 8 ∷ 0 ∷ 0x45 ∷ 0 ∷ 7 ∷ []

frame_of_example : frame_of packet ≡ framed
unfolding make_data_frame ether_type_for_family packet_version
frame_of_example = refl

is_packet : IsPacket packet
unfolding packet_version
is_packet = inl refl

-- The frame arrives in front of the next one, and the packet comes out.
abbrev incoming : Source
incoming = record { bytes = frame_of packet ++ (0 ∷ 20 ∷ []); final = eof }

abbrev remaining : Source
remaining = record { bytes = 0 ∷ 20 ∷ []; final = eof }

read_packet-frame_of_example : read_packet (ok tt) 1500 incoming ≡ (ok packet, remaining)
read_packet-frame_of_example =
    read_packet-frame_of 1500 packet (0 ∷ 20 ∷ []) eof is_packet (omega arith) (omega arith)

-- Bytes 6 and 7 may hold anything.
abbrev foreign : Source
foreign = record {
  bytes = 0 ∷ 13 ∷ 65 ∷ 68 ∷ 0 ∷ 7 ∷ 1 ∷ 2 ∷ 8 ∷ 0 ∷ 0x45 ∷ 0 ∷ 7 ∷ [];
  final = eof;
}

abbrev nothing : Source
nothing = record { bytes = []; final = eof }

foreign_read : read_packet (ok tt) 1500 foreign ≡ (ok packet, nothing)
unfolding read_packet read_frame read_full parse_frame check_frame get_u16 text_eq
    family_for_ether_type packet_version
foreign_read = refl

read_packet_sound_example :
    (a : ℕ) × (b : ℕ) × (foreign.bytes ≡ frame_with a b packet ++ [])
    × IsPacket packet
    × FitsFrame packet
    × (length packet ≤ 1500)
read_packet_sound_example = read_packet_sound 1500 foreign nothing packet (omega arith) foreign_read

-- A writer that takes one byte at a time.
abbrev slow : ℕ → WriteOutcome
slow k = wrote 1

slow-IsSteady : IsSteady slow
slow-IsSteady k h = (1, refl, omega arith, h)

write_packet_sent_example : write_packet (ok tt) slow packet ≡ (ok tt, frame_of packet)
write_packet_sent_example = write_packet_sent slow packet slow-IsSteady is_packet (omega arith)

-- A writer that takes three bytes and fails.
abbrev broken : ℕ → WriteOutcome
broken k = write_failed 3

write_packet-front_example :
    (rest : List ℕ) × (frame_of packet ≡ (write_packet (ok tt) broken packet).1 ++ rest)
    × ((write_packet (ok tt) broken packet).0 ≡ ok tt → rest ≡ [])
write_packet-front_example = write_packet-front (ok tt) broken packet
