-- ===== src/Engine.antt =====
-- internal/tunnel/tunnel.go: the packet engine, with its two copy loops.
pub mod Ways
pub mod Runs
mod Examples
use fortivpn_go.Prelude.{
  ◌>>◌, ◌>>=◌, ℕ, ◌≡◌, Bool, true, false, not, ◌&&◌, ◌||◌, Option, none, some, List, [], ◌∷◌, ◌++◌,
  leb, ◌==◌, if◌then◌else◌, length, all, Result, err, ok, reject, ℤ, pos, negsuc,
}
use fortivpn_go.Tun.Framing.{ip_version}

abbrev pub Packet : Type 0
Packet = List ℕ

-- The errors of a call: a cancelled context, the end of the stream, and all others.
pub data Fault : Type 0 where
  canceled eof other_fault : Fault

pub data CopyError : Type 0 where
  read_failed write_failed : Fault → CopyError
  unsupported_packet short_write : CopyError

-- `validatePacket`, true for no error
unfoldable pub validate_packet : Packet → Bool
unfolding ip_version
validate_packet p = ip_version p == 4 || ip_version p == 6

-- A copy loop reads, or writes the packet that it read, or has given its error to the channel.
pub data Loop : Type 0 where
  reading : Loop
  writing : Packet → Loop
  ended : CopyError → Loop

-- A loop, the packets that it read, and the packets that it gave to a write.
pub record Way : Type 0 where
  pub loop : Loop
  pub read : List Packet
  pub handed : List Packet

abbrev pub first_way : Way
first_way = record { loop = reading; read = []; handed = [] }

abbrev pub after_read : Way → Result Fault Packet → Way
after_read w (err f) = record w { loop = ended (read_failed f) }
after_read w (ok p) =
    let kept = w.read ++ (p ∷ []) in
    if validate_packet p
    then record w { loop = writing p; read = kept }
    else record w { loop = ended unsupported_packet; read = kept }

abbrev pub after_packet_write : Way → Packet → Option CopyError → Way
after_packet_write w p none = record w { loop = reading; handed = w.handed ++ (p ∷ []) }
after_packet_write w p (some e) = record w { loop = ended e; handed = w.handed ++ (p ∷ []) }

abbrev pub fits : ℕ → Result Fault Packet → Bool
fits room (err f) = true
fits room (ok p) = leb (length p) room

-- A read fills at most the buffer.
abbrev pub reads : ℕ → Way → Result Fault Packet → Option Way
reads room w r = if fits room r then some (after_read w r) else none

-- What ends the loop after `transport.WritePacket`, or after `device.Write` of a packet.
abbrev pub packet_written : Option Fault → Option CopyError
packet_written none = none
packet_written (some f) = some (write_failed f)

abbrev pub bytes_written : Packet → Result Fault ℕ → Option CopyError
bytes_written p (err f) = some (write_failed f)
bytes_written p (ok n) = if n == length p then none else some short_write

pub data DeviceToTunnel : Type 0 where
  device_read : Result Fault Packet → DeviceToTunnel
  tunnel_write : Option Fault → DeviceToTunnel

pub data TunnelToDevice : Type 0 where
  tunnel_read : Result Fault Packet → TunnelToDevice
  device_write : Result Fault ℕ → TunnelToDevice

abbrev pub out_call : ℕ → Way → Loop → DeviceToTunnel → Option Way
out_call room w reading (device_read r) = reads room w r
out_call room w (writing p) (tunnel_write r) = some (after_packet_write w p (packet_written r))
out_call room w loop call = none

abbrev pub in_call : ℕ → Way → Loop → TunnelToDevice → Option Way
in_call room w reading (tunnel_read r) = reads room w r
in_call room w (writing p) (device_write r) = some (after_packet_write w p (bytes_written p r))
in_call room w loop call = none

-- `copyDeviceToTunnel` up to its next call, none where the loop does not make this call
unfoldable pub copy_device_to_tunnel : ℕ → Way → DeviceToTunnel → Option Way
unfolding validate_packet
copy_device_to_tunnel room w call = out_call room w w.loop call

-- `copyTunnelToDevice`
unfoldable pub copy_tunnel_to_device : ℕ → Way → TunnelToDevice → Option Way
unfolding validate_packet
copy_tunnel_to_device room w call = in_call room w w.loop call

pub data End : Type 0 where
  tunnel_end device_end : End

-- `Run`, after its two goroutines start. A result without an error is none.
pub record Engine : Type 0 where
  pub out : Way
  pub into : Way
  pub cancelled : Bool
  pub closed : List End
  pub returned : Option (Option CopyError)

abbrev pub first_engine : Engine
first_engine = record {
  out = first_way;
  into = first_way;
  cancelled = false;
  closed = [];
  returned = none;
}

abbrev pub closed_once : List End → List End
closed_once [] = tunnel_end ∷ device_end ∷ []
closed_once (e ∷ es) = e ∷ es

-- `closeAll`
unfoldable pub close_all : Engine → Engine
close_all s = record s { closed = closed_once s.closed }

abbrev pub is_benign_fault : Fault → Bool
is_benign_fault other_fault = false
is_benign_fault f = true

-- `errors.Is` of context.Canceled or io.EOF
unfoldable pub is_benign : CopyError → Bool
is_benign (read_failed f) = is_benign_fault f
is_benign (write_failed f) = is_benign_fault f
is_benign e = false

-- The return, with the deferred `closeAll` after the one before it.
abbrev pub returning : Engine → Option CopyError → Engine
returning s r = close_all (record (close_all s) { returned = some r })

abbrev pub result_of : CopyError → Option CopyError
result_of e = if is_benign e then none else some e

pub data Event : Type 0 where
  out_step : DeviceToTunnel → Event
  into_step : TunnelToDevice → Event
  cancel take_done take_out take_into : Event

abbrev pub with_out : Engine → Option Way → Option Engine
with_out s none = none
with_out s (some w) = some (record s { out = w })

abbrev pub with_into : Engine → Option Way → Option Engine
with_into s none = none
with_into s (some w) = some (record s { into = w })

-- The channel of results gives the error of a loop that has ended.
abbrev pub take_result : Engine → Loop → Option Engine
take_result s (ended e) = some (returning s (result_of e))
take_result s loop = none

abbrev pub unreturned : Option (Option CopyError) → Bool
unreturned none = true
unreturned (some r) = false

abbrev pub is_running : Engine → Bool
is_running s = unreturned s.returned

-- One event of `Run` and its goroutines; none where it cannot happen.
unfoldable pub step : ℕ → Engine → Event → Option Engine
unfolding copy_device_to_tunnel copy_tunnel_to_device close_all is_benign
step room s (out_step call) = with_out s (copy_device_to_tunnel room s.out call)
step room s (into_step call) = with_into s (copy_tunnel_to_device room s.into call)
step room s cancel = some (record s { cancelled = true })
step room s take_done = if is_running s && s.cancelled then some (returning s none) else none
step room s take_out = if is_running s then take_result s s.out.loop else none
step room s take_into = if is_running s then take_result s s.into.loop else none

-- What a run can come to.
pub data Reach (room : ℕ) : Engine → Type 0 where
  start : Reach room first_engine
  next : (s t : Engine) (e : Event) → Reach room s → step room s e ≡ some t → Reach room t

pub data EngineError : Type 0 where
  device_required tunnel_required negative_size connect_failed : EngineError

abbrev pub default_packet_buffer_size : ℕ
default_packet_buffer_size = 65535

abbrev pub size_of : ℤ → Result EngineError ℕ
size_of (pos n) = ok (if n == 0 then default_packet_buffer_size else n)
size_of (negsuc n) = err negative_size

-- The checks of `Run` before the goroutines, as the size of their buffers
unfoldable pub prepare : (has_device has_tunnel connects : Bool) → ℤ → Result EngineError ℕ
prepare has_device has_tunnel connects size =
    reject (not has_device) device_required
    >> reject (not has_tunnel) tunnel_required
    >> (size_of size >>= λ n. reject (not connects) connect_failed >> ok n)
