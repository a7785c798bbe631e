-- ===== src/Fortinet/Frame/RoundTrip.antt =====
-- `WritePacket` and then `ReadPacket`.
use fortivpn_go.Prelude.{
  ℕ, ◌+◌, ◌-◌, ◌≤◌, ◌<◌, ◌≡◌, refl, ◌≢◌, ◌⊎◌, List, ◌∷◌, ◌++◌, arith, length, ok, text_eq_refl,
  text_eq,
}
use fortivpn_go.Wire.{put_u16, get_u16, IoError, read_full, get_u16-put_u16, read_full-append}
use mathlib.Core.List.{append_assoc}
use fortivpn_go.Fortinet.Frame.{
  header_length, max_frame_size, magic_data, packet_version, ether_type_for_family,
  family_for_ether_type, make_data_frame, parse_frame, read_body, read_frame, check_frame,
  read_packet,
}

-- An IPv4 or IPv6 packet.
abbrev pub IsPacket : List ℕ → Type 0
IsPacket packet = (packet_version packet ≡ 4) ⊎ (packet_version packet ≡ 6)

-- The frame that `WritePacket` sends for a packet.
abbrev pub frame_of : List ℕ → List ℕ
frame_of packet = make_data_frame packet (ether_type_for_family (packet_version packet))

-- The packets that fit a frame.
abbrev pub FitsFrame : List ℕ → Type 0
FitsFrame packet = length packet + header_length ≤ max_frame_size

-- A frame without its length field.
body_of : List ℕ → List ℕ
body_of packet =
    magic_data
    ++ (put_u16 (length packet + 4)
        ++ (0 ∷ 0 ∷ (put_u16 (ether_type_for_family (packet_version packet)) ++ packet)))

length-body_of : (packet : List ℕ) → length (body_of packet) ≡ length packet + 8
unfolding body_of put_u16
length-body_of packet = omega arith

frame_of-split :
    (packet : List ℕ) → frame_of packet ≡ put_u16 (header_length + length packet) ++ body_of packet
unfolding make_data_frame body_of
frame_of-split packet = refl

ether_facts :
    (packet : List ℕ)
    → IsPacket packet
    → (ether_type_for_family (packet_version packet) < 65536)
      × (family_for_ether_type (ether_type_for_family (packet_version packet))
          ≡ packet_version packet)
      × (packet_version packet ≢ 0)
unfolding ether_type_for_family family_for_ether_type
ether_facts packet h = ground arith

parse-frame_of :
    (packet : List ℕ)
    → IsPacket packet
    → FitsFrame packet
    → parse_frame (put_u16 (header_length + length packet) ++ body_of packet)
      ≡ ok (record {
        magic = magic_data;
        payload_length = length packet + 4;
        ether_type = ether_type_for_family (packet_version packet);
        payload = packet;
      })
unfolding parse_frame put_u16 get_u16 body_of text_eq
parse-frame_of packet h fits = ground (arith, ether_facts packet)

read_head-put_u16 :
    (n : ℕ) (rest : List ℕ) (e : IoError)
    → read_full 2 (record { bytes = put_u16 n ++ rest; final = e })
      ≡ (ok (put_u16 n), record { bytes = rest; final = e })
unfolding put_u16
read_head-put_u16 n rest e = read_full-append (put_u16 n) rest e

read_body-append :
    (head body rest : List ℕ) (e : IoError) (n : ℕ)
    → length body ≡ n
    → read_body head (read_full n (record { bytes = body ++ rest; final = e }))
      ≡ (parse_frame (head ++ body), record { bytes = rest; final = e })
read_body-append head body rest e n h = rw (← h) (rw (read_full-append body rest e))

read_frame-frame_of :
    (packet rest : List ℕ) (e : IoError)
    → IsPacket packet
    → FitsFrame packet
    → read_frame (record { bytes = frame_of packet ++ rest; final = e }) ≡ (
      ok (record {
        magic = magic_data;
        payload_length = length packet + 4;
        ether_type = ether_type_for_family (packet_version packet);
        payload = packet;
      }),
      record { bytes = rest; final = e },
    )
unfolding read_frame
read_frame-frame_of packet rest e h fits =
    rw
      (
        frame_of-split,
        append_assoc,
        read_frame,
        read_head-put_u16 (header_length + length packet) (body_of packet ++ rest) e,
      )
      (ground (
        arith,
        get_u16-put_u16 (header_length + length packet),
        read_body-append (put_u16 (header_length + length packet)) (body_of packet) rest e
            (header_length + length packet - 2) (omega (arith, length-body_of packet)),
        parse-frame_of packet h fits,
      ))

check-frame_of :
    (capacity : ℕ) (packet : List ℕ)
    → IsPacket packet
    → length packet ≤ capacity
    → check_frame capacity (record {
      magic = magic_data;
      payload_length = length packet + 4;
      ether_type = ether_type_for_family (packet_version packet);
      payload = packet;
    })
      ≡ ok packet
unfolding check_frame
check-frame_of capacity packet h fits =
    rw (text_eq_refl magic_data) (ground (arith, ether_facts packet))

-- For an IPv4 or IPv6 packet that fits a frame and the destination, `ReadPacket` on the frame of
-- the packet returns the packet, and leaves the bytes behind the frame for the next call.
pub read_packet-frame_of :
    (capacity : ℕ) (packet rest : List ℕ) (e : IoError)
    → IsPacket packet
    → FitsFrame packet
    → length packet ≤ capacity
    → read_packet (ok tt) capacity (record { bytes = frame_of packet ++ rest; final = e })
      ≡ (ok packet, record { bytes = rest; final = e })
unfolding read_packet
read_packet-frame_of capacity packet rest e h fits room =
    rw (read_frame-frame_of packet rest e h fits) (rw (check-frame_of capacity packet h room))
