-- ===== src/Fortinet/Frame.antt =====
-- internal/fortinet/tunnel.go: the TUN v2 frames of the tunnel, their reader and their writer.
-- The connection enters as the bytes that it will deliver, a writer's outcomes, and the result of
-- setting a deadline, which is where the context's cancellation shows.
pub mod RoundTrip
pub mod Sound
pub mod Sent
mod Examples
use fortivpn_go.Prelude.{
  ℕ, ◌+◌, ◌-◌, ◌/◌, not, ◌||◌, none, List, [], ◌∷◌, ◌++◌, ltb, ◌==◌, if◌then◌else◌, length, take,
  drop, Result, ok, err, Text, codes, text_eq,
}
use fortivpn_go.Wire.{
  put_u16, get_u16, IoError, Source, read_full, WriteOutcome, WriteError, write_all,
}

abbrev pub header_length : ℕ
header_length = 10

abbrev pub max_frame_size : ℕ
max_frame_size = 65535

abbrev pub magic_data : Text
magic_data = codes "AD"

abbrev pub magic_control : Text
magic_control = codes "GF"

abbrev pub ether_ipv4 : ℕ
ether_ipv4 = 0x0800

abbrev pub ether_ipv6 : ℕ
ether_ipv6 = 0x86dd

pub data FrameError : Type 0 where
  read_failed : IoError → FrameError
  bad_frame_length data_too_short : FrameError
  deadline_failed : FrameError
  unexpected_magic short_buffer bad_payload_length unsupported_ether family_mismatch : FrameError

pub data SendError : Type 0 where
  unsupported_version packet_too_large : SendError
  no_deadline : SendError
  send_failed : WriteError → SendError

pub record Frame : Type 0 where
  pub magic : List ℕ
  pub payload_length : ℕ
  pub ether_type : ℕ
  pub payload : List ℕ

-- The version nibble of a packet, 0 for none.
unfoldable pub packet_version : List ℕ → ℕ
packet_version [] = 0
packet_version (b ∷ bs) = b / 16

unfoldable pub ether_type_for_family : ℕ → ℕ
ether_type_for_family family =
    if family == 4 then ether_ipv4 else if family == 6 then ether_ipv6 else 0

unfoldable pub family_for_ether_type : ℕ → ℕ
family_for_ether_type ether =
    if ether == ether_ipv4 then 4 else if ether == ether_ipv6 then 6 else 0

-- Bytes 6 and 7 stay as `make` left them.
unfoldable pub make_data_frame : List ℕ → ℕ → List ℕ
unfolding put_u16
make_data_frame packet ether =
    put_u16 (header_length + length packet)
    ++ (magic_data ++ (put_u16 (length packet + 4) ++ (0 ∷ 0 ∷ (put_u16 ether ++ packet))))

-- `readFrame` once the frame is there: `raw` has `frame_length` bytes.
unfoldable pub parse_frame : List ℕ → Result FrameError Frame
parse_frame raw =
    let magic = take 2 (drop 2 raw) in
    if text_eq magic magic_control
    then ok (record { magic = magic; payload_length = 0; ether_type = 0; payload = drop 4 raw })
    else if ltb (length raw) header_length
    then err data_too_short
    else ok (record {
      magic = magic;
      payload_length = get_u16 (drop 4 raw);
      ether_type = get_u16 (drop 8 raw);
      payload = drop header_length raw;
    })

abbrev pub read_body : List ℕ → Result IoError (List ℕ) × Source → Result FrameError Frame × Source
read_body head (ok body, s) = (parse_frame (head ++ body), s)
read_body head (err e, s) = (err (read_failed e), s)

abbrev pub read_head : Result IoError (List ℕ) × Source → Result FrameError Frame × Source
read_head (err e, s) = (err (read_failed e), s)
read_head (ok head, s) =
    if ltb (get_u16 head) 4 || ltb max_frame_size (get_u16 head)
    then (err bad_frame_length, s)
    else read_body head (read_full (get_u16 head - 2) s)

unfoldable pub read_frame : Source → Result FrameError Frame × Source
read_frame s = read_head (read_full 2 s)

-- What `ReadPacket` checks of a frame, for a destination of `capacity` bytes.
unfoldable pub check_frame : ℕ → Frame → Result FrameError (List ℕ)
check_frame capacity frame =
    if not (text_eq frame.magic magic_data)
    then err unexpected_magic
    else if ltb capacity (length frame.payload)
    then err short_buffer
    else if not (frame.payload_length == length frame.payload + 4)
    then err bad_payload_length
    else if family_for_ether_type frame.ether_type == 0
    then err unsupported_ether
    else if not (packet_version frame.payload == family_for_ether_type frame.ether_type)
    then err family_mismatch
    else ok frame.payload

abbrev pub check_read : ℕ → Result FrameError Frame × Source → Result FrameError (List ℕ) × Source
check_read capacity (err e, s) = (err e, s)
check_read capacity (ok frame, s) = (check_frame capacity frame, s)

unfoldable pub read_packet :
    Result FrameError (Unit {0}) → ℕ → Source → Result FrameError (List ℕ) × Source
read_packet (err e) capacity s = (err e, s)
read_packet (ok u) capacity s = check_read capacity (read_frame s)

abbrev pub send_result :
    Result WriteError (Unit {0}) × List ℕ → Result SendError (Unit {0}) × List ℕ
send_result (ok u, sent) = (ok tt, sent)
send_result (err e, sent) = (err (send_failed e), sent)

abbrev pub send_after :
    Result SendError (Unit {0}) → (ℕ → WriteOutcome) → List ℕ → Result SendError (Unit {0}) × List ℕ
send_after (err e) writer frame = (err e, [])
send_after (ok u) writer frame = send_result (write_all writer frame)

-- The result, and the bytes that reached the connection.
unfoldable pub write_packet :
    Result SendError (Unit {0}) → (ℕ → WriteOutcome) → List ℕ → Result SendError (Unit {0}) × List ℕ
write_packet deadline writer packet =
    let ether = ether_type_for_family (packet_version packet) in
    if ether == 0
    then (err unsupported_version, [])
    else if ltb max_frame_size (length packet + header_length)
    then (err packet_too_large, [])
    else send_after deadline writer (make_data_frame packet ether)
