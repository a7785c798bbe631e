-- ===== src/Ipsec/Options/Ready.antt =====
-- What `Validate` and `New` of internal/ipsec/backend.go promise of a backend's options.
use mathlib.Core.Path.{subst}
use fortivpn_go.Prelude.{
  ◌<◌, ◌≡◌, refl, ◌⊎◌, Bool, true, false, not, ◌&&◌, ◌||◌, arith, ◌==◌, any, ok, ok-injective,
  reject-ok, >>-eq-ok, is_empty, text_eq_iff, text_eq,
}
use fortivpn_go.Netip.{Addr, addr_is_valid, is4, is_unspecified, is_multicast}
use fortivpn_go.Network.{IpMode, ipv4, dual}
use fortivpn_go.Ipsec.Options.{
  Options, is_wildcard, is_invalid_value, is_absolute, is_supported, udp, tcp, validate,
  with_transport, with_port, with_socket, new,
}

-- What `New` promises of a backend's options.
pub record IsReady (o : Options) : Type 0 where
  pub transport :
      ((o.transport ≡ udp) × (o.tcp_port ≡ 0)) ⊎ ((o.transport ≡ tcp) × (0 < o.tcp_port))
  pub gateway_is4 : is4 o.gateway ≡ true
  pub gateway_host : (is_unspecified o.gateway || is_multicast o.gateway) ≡ false
  pub socket : is_absolute o.socket_path ≡ true
  pub remote_id : is_invalid_value o.remote_id ≡ false
  pub username : is_invalid_value o.username ≡ false
  pub password : is_invalid_value o.password ≡ false
  pub psk : is_invalid_value o.psk ≡ false
  pub identity : any is_wildcard o.remote_id ≡ false
  pub ip_mode : (o.ip_mode ≡ ipv4) ⊎ (o.ip_mode ≡ dual)

-- The facts that a successful `Validate` leaves.
pub record IsValid (o : Options) : Type 0 where
  pub transport :
      (not (is_empty o.transport) && not (text_eq o.transport udp) && not (text_eq o.transport tcp))
      ≡ false
  pub port : (not (text_eq o.transport tcp) && not (o.tcp_port == 0)) ≡ false
  pub gateway :
      (not (addr_is_valid o.gateway)
        || not (is4 o.gateway)
        || is_unspecified o.gateway
        || is_multicast o.gateway)
      ≡ false
  pub socket : (not (is_empty o.socket_path) && not (is_absolute o.socket_path)) ≡ false
  pub values :
      (is_invalid_value o.remote_id
        || is_invalid_value o.username
        || is_invalid_value o.password
        || is_invalid_value o.psk)
      ≡ false
  pub identity : any is_wildcard o.remote_id ≡ false
  pub ip_mode : not (is_supported o.ip_mode) ≡ false

validate-IsValid : (o : Options) → validate o ≡ ok tt → IsValid o
unfolding validate
validate-IsValid o h =
    let (a, h1) = >>-eq-ok _ _ h in
    let (b, h2) = >>-eq-ok _ _ h1 in
    let (c, h3) = >>-eq-ok _ _ h2 in
    let (d, h4) = >>-eq-ok _ _ h3 in
    let (e, h5) = >>-eq-ok _ _ h4 in
    let (f, g) = >>-eq-ok _ _ h5 in
    record {
      transport = reject-ok _ _ a;
      port = reject-ok _ _ b;
      gateway = reject-ok _ _ c;
      socket = reject-ok _ _ d;
      values = reject-ok _ _ e;
      identity = reject-ok _ _ f;
      ip_mode = reject-ok _ _ g;
    }

supported-cases : (m : IpMode) → not (is_supported m) ≡ false → (m ≡ ipv4) ⊎ (m ≡ dual)
supported-cases m h = ground arith

udp_not_tcp : text_eq udp tcp ≡ false
unfolding text_eq
udp_not_tcp = refl

values-parts :
    (a b c d : Bool)
    → (a || b || c || d) ≡ false
    → (a ≡ false) × (b ≡ false) × (c ≡ false) × (d ≡ false)
values-parts a b c d h = ground arith

gateway-parts :
    (a : Addr)
    → (not (addr_is_valid a) || not (is4 a) || is_unspecified a || is_multicast a) ≡ false
    → (is4 a ≡ true) × ((is_unspecified a || is_multicast a) ≡ false)
gateway-parts a h = ground (arith, h)

transport-default :
    (o : Options)
    → IsValid o
    → let t = with_port (with_transport o) in
      ((t.transport ≡ udp) × (t.tcp_port ≡ 0)) ⊎ ((t.transport ≡ tcp) × (0 < t.tcp_port))
transport-default o v = ground (
  arith,
  v.transport,
  v.port,
  text_eq_iff o.transport udp,
  text_eq_iff o.transport tcp,
  udp_not_tcp,
)

-- What filling in the defaults leaves alone.
socket-default :
    (o : Options)
    → IsValid o
    → is_absolute (with_socket (with_port (with_transport o))).socket_path ≡ true
socket-default o v = ground (arith, v.socket)

with_socket-keeps :
    (o : Options)
    → let t = with_socket o in
      (t.transport ≡ o.transport)
      × (t.tcp_port ≡ o.tcp_port)
      × (t.gateway ≡ o.gateway)
      × (t.remote_id ≡ o.remote_id)
      × (t.username ≡ o.username)
      × (t.password ≡ o.password)
      × (t.psk ≡ o.psk)
      × (t.ip_mode ≡ o.ip_mode)
with_socket-keeps o = ground arith

with_transport-keeps :
    (o : Options)
    → let t = with_port (with_transport o) in
      (t.gateway ≡ o.gateway)
      × (t.remote_id ≡ o.remote_id)
      × (t.username ≡ o.username)
      × (t.password ≡ o.password)
      × (t.psk ≡ o.psk)
      × (t.ip_mode ≡ o.ip_mode)
with_transport-keeps o = ground arith

defaults-IsReady : (o : Options) → IsValid o → IsReady (with_socket (with_port (with_transport o)))
defaults-IsReady o v =
    let (t, p, g, r, u, w, s, m) = with_socket-keeps (with_port (with_transport o)) in
    let (g', r', u', w', s', m') = with_transport-keeps o in
    let (vr, vu, vw, vs) =
      values-parts (is_invalid_value o.remote_id) (is_invalid_value o.username)
        (is_invalid_value o.password) (is_invalid_value o.psk) v.values in
    let g4 = gateway-parts o.gateway v.gateway in
    record {
      transport = rw (t, p) (transport-default o v);
      gateway_is4 = rw (g, g') g4.0;
      gateway_host = rw (g, g') g4.1;
      socket = socket-default o v;
      remote_id = rw (r, r') vr;
      username = rw (u, u') vu;
      password = rw (w, w') vw;
      psk = rw (s, s') vs;
      identity = rw (r, r') v.identity;
      ip_mode = rw (m, m') (supported-cases o.ip_mode v.ip_mode);
    }

-- A backend that `New` returns has the transport udp with no TCP port, or tcp with one; an IPv4
-- gateway address that is neither unspecified nor multicast; an absolute socket path; a remote
-- identity with no wildcard; four values that are not empty, at most 4096 bytes long and without
-- the characters NUL, CR and LF; and one of the two supported IP modes.
pub new-IsReady : (o o' : Options) → new o ≡ ok o' → IsReady o'
unfolding new
new-IsReady o o' h =
    let (v, e) = >>-eq-ok (validate o) _ h in
    subst IsReady (ok-injective (with_socket (with_port (with_transport o))) o' e)
      (defaults-IsReady o (validate-IsValid o v))
