-- ===== src/Ipsec/Options.antt =====
-- `Options`, `Validate` and `New` of internal/ipsec/backend.go.
pub mod Ready
use fortivpn_go.Prelude.{
  ℕ, Bool, true, false, not, ◌&&◌, ◌||◌, [], ◌∷◌, map, ltb, ◌==◌, if◌then◌else◌, any, Result, ok,
  reject, ◌>>=◌, ◌>>◌, Text, codes, is_empty, text_eq, byte_len,
}
use fortivpn_go.Netip.{Addr, addr_is_valid, is4, is_unspecified, is_multicast}
use fortivpn_go.Network.{IpMode, ipv4, dual}

-- `TCPPort` is a uint16.
pub record Options : Type 0 where
  pub transport : Text
  pub tcp_port : ℕ
  pub socket_path : Text
  pub gateway : Addr
  pub remote_id : Text
  pub username : Text
  pub password : Text
  pub psk : Text
  pub ip_mode : IpMode

-- `invalid_value` stands for the four values that `Validate` visits in the order of a Go map.
pub data OptionsError : Type 0 where
  bad_transport port_without_tcp bad_gateway relative_socket invalid_value : OptionsError
  wildcard_remote_id unsupported_ip_mode : OptionsError

-- `strings.ContainsAny(value, "\x00\r\n")`
abbrev pub is_nul_or_newline : ℕ → Bool
is_nul_or_newline c = c == 0 || c == 13 || c == 10

-- `strings.ContainsAny(o.RemoteID, "%*")`
abbrev pub is_wildcard : ℕ → Bool
is_wildcard c = c == b'%' || c == b'*'

unfoldable pub is_invalid_value : Text → Bool
is_invalid_value v = is_empty v || ltb 4096 (byte_len v) || any is_nul_or_newline v

abbrev pub is_absolute : Text → Bool
is_absolute [] = false
is_absolute (c ∷ s) = c == b'/'

abbrev pub is_supported : IpMode → Bool
is_supported ipv4 = true
is_supported dual = true
is_supported _ = false

abbrev pub udp : Text
udp = codes "udp"

abbrev pub tcp : Text
tcp = codes "tcp"

unfoldable pub validate : Options → Result OptionsError (Unit {0})
validate o = do
  reject
      (not (is_empty o.transport) && not (text_eq o.transport udp) && not (text_eq o.transport tcp))
      bad_transport
  reject (not (text_eq o.transport tcp) && not (o.tcp_port == 0)) port_without_tcp
  reject
      (not (addr_is_valid o.gateway)
        || not (is4 o.gateway)
        || is_unspecified o.gateway
        || is_multicast o.gateway)
      bad_gateway
  reject (not (is_empty o.socket_path) && not (is_absolute o.socket_path)) relative_socket
  reject
      (is_invalid_value o.remote_id
        || is_invalid_value o.username
        || is_invalid_value o.password
        || is_invalid_value o.psk)
      invalid_value
  reject (any is_wildcard o.remote_id) wildcard_remote_id
  reject (not (is_supported o.ip_mode)) unsupported_ip_mode

abbrev pub default_socket : Text
default_socket = codes "/var/run/charon.vici"

abbrev pub with_transport : Options → Options
with_transport o = if is_empty o.transport then record o { transport = udp } else o

abbrev pub with_port : Options → Options
with_port o =
    if text_eq o.transport tcp && (o.tcp_port == 0) then record o { tcp_port = 4500 } else o

abbrev pub with_socket : Options → Options
with_socket o = if is_empty o.socket_path then record o { socket_path = default_socket } else o

-- `New`: the options of the backend, with the defaults filled in.
unfoldable pub new : Options → Result OptionsError Options
unfolding validate
new o = do validate o; ok (with_socket (with_port (with_transport o)))
