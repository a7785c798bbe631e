-- ===== src/Relay.antt =====
-- internal/ipsec/tcptransport/relay.go: IKE and ESP datagrams in length-prefixed TCP records, and
-- the relay between a TCP connection and the daemon's loopback UDP socket.
-- A datagram is a list of bytes. The two loops are functions of what their socket delivers.
pub mod RoundTrip
pub mod Lifecycle
mod Examples
use fortivpn_go.Prelude.{
  ℕ, zero, suc, ◌+◌, ◌-◌, Bool, false, ◌||◌, List, [], ◌∷◌, ◌++◌, ltb, ◌==◌, if◌then◌else◌, length,
  Result, ok, err,
}
use fortivpn_go.Wire.{
  put_u16, get_u16, IoError, Source, read_full, WriteOutcome, WriteError, write_all,
}

abbrev pub max_payload : ℕ
max_payload = 65533

-- `unfinished_read` is no Go value: the loop ran out of fuel.
pub data RecordError : Type 0 where
  record_io : IoError → RecordError
  invalid_length invalid_payload : RecordError
  record_write : WriteError → RecordError
  udp_failed : RecordError
  unfinished_read : RecordError

abbrev pub read_payload : Result IoError (List ℕ) × Source → Result RecordError (List ℕ) × Source
read_payload (ok p, s) = (ok p, s)
read_payload (err e, s) = (err (record_io e), s)

-- One round of `ReadFrame` after its header; an empty record goes on with `next`.
unfoldable pub after_header :
    Result IoError (List ℕ) × Source
    → (Source → Result RecordError (List ℕ) × Source)
    → Result RecordError (List ℕ) × Source
after_header (err e, s) next = (err (record_io e), s)
after_header (ok head, s) next =
    if ltb (get_u16 head) 2
    then (err invalid_length, s)
    else if get_u16 head == 2
    then next s
    else read_payload (read_full (get_u16 head - 2) s)

unfoldable pub read_record_loop : ℕ → Source → Result RecordError (List ℕ) × Source
unfolding after_header
read_record_loop zero s = (err unfinished_read, s)
read_record_loop (suc fuel) s = after_header (read_full 2 s) (λ rest. read_record_loop fuel rest)

-- `ReadFrame`. A round that goes on has taken two bytes, so more rounds than bytes are enough.
unfoldable pub read_record : Source → Result RecordError (List ℕ) × Source
read_record s = read_record_loop (suc (length s.bytes)) s

abbrev pub record_result :
    Result WriteError (Unit {0}) × List ℕ → Result RecordError (Unit {0}) × List ℕ
record_result (ok u, sent) = (ok tt, sent)
record_result (err e, sent) = (err (record_write e), sent)

-- The record of a payload: its length with the header, and the payload.
unfoldable pub record_bytes : List ℕ → List ℕ
record_bytes p = put_u16 (length p + 2) ++ p

-- `WriteFrame`, with the bytes that reached the connection.
unfoldable pub write_record : (ℕ → WriteOutcome) → List ℕ → Result RecordError (Unit {0}) × List ℕ
write_record writer p =
    if length p == 0 || ltb max_payload (length p)
    then (err invalid_payload, [])
    else record_result (write_all writer (record_bytes p))

-- A UDP NAT keepalive: the one byte 0xff.
unfoldable pub is_keepalive : List ℕ → Bool
is_keepalive (b ∷ []) = b == 0xff
is_keepalive _ = false

abbrev pub outbound_next :
    Result RecordError (Unit {0}) × List ℕ
    → Result RecordError (Unit {0}) × List ℕ
    → Result RecordError (Unit {0}) × List ℕ
outbound_next (err e, sent) rest = (err e, sent)
outbound_next (ok u, sent) (r, more) = (r, sent ++ more)

-- `outbound` over the datagrams that the UDP socket delivers: the error that ended the loop, or ok
-- where the socket delivers no more, and the bytes that reached the TCP connection. The connection
-- answers each `Write` by the datagrams and the bytes that are left.
unfoldable pub outbound :
    (ℕ → ℕ → WriteOutcome) → List (List ℕ) → Result RecordError (Unit {0}) × List ℕ
outbound connection [] = (ok tt, [])
outbound connection (p ∷ rest) =
    let later = outbound connection rest in
    if is_keepalive p
    then later
    else outbound_next (write_record (connection (length rest)) p) later

-- One round of `inbound`: what is delivered to the daemon, and the error that ends the loop.
unfoldable pub inbound_next :
    (List ℕ → Bool)
    → Result RecordError (List ℕ) × Source
    → (Source → RecordError × List (List ℕ))
    → RecordError × List (List ℕ)
inbound_next accepts (err e, s) next = (e, [])
inbound_next accepts (ok p, s) next =
    if is_keepalive p
    then next s
    else if accepts p
    then (let (e, more) = next s in (e, p ∷ more))
    else (udp_failed, [])

unfoldable pub inbound_loop : ℕ → (List ℕ → Bool) → Source → RecordError × List (List ℕ)
unfolding inbound_next
inbound_loop zero accepts s = (unfinished_read, [])
inbound_loop (suc fuel) accepts s =
    inbound_next accepts (read_record s) (λ rest. inbound_loop fuel accepts rest)

-- `inbound` over what the TCP connection delivers; `accepts` is what the UDP write answers. Each
-- round takes a byte at least.
unfoldable pub inbound : (List ℕ → Bool) → Source → RecordError × List (List ℕ)
unfolding inbound_loop
inbound accepts s = inbound_loop (suc (length s.bytes)) accepts s
