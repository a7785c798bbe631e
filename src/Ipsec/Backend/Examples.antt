-- ===== src/Ipsec/Backend/Examples.antt =====
-- A daemon that refuses the credentials, and one that is never asked for an SA.
use fortivpn_go.Prelude.{
  ◌≡◌, refl, Bool, true, false, Option, none, some, List, [], ◌∷◌, codes, text_eq,
}
use fortivpn_go.Netip.{v4, AddrText}
use fortivpn_go.Network.{ipv4}
use fortivpn_go.Ipsec.Options.{Options}
use fortivpn_go.Ipsec.Vici.{list_value, Message, empty_message, field, get, list}
use fortivpn_go.Ipsec.Backend.{
  Command, stats, load_conn, unload_shared, Reply, Daemon, World, check_plugins, check_unused,
  preflight, unload_all, close, setup, connect,
}
use fortivpn_go.Ipsec.Backend.Cleanup.{IsClean, released, connect-IsClean}

abbrev demo : AddrText
demo = record {
  parse_addr = λ t. none;
  parse_prefix = λ t. none;
  addr_string = λ a. codes "192.0.2.1";
  prefix_string = λ p. [];
}

abbrev options : Options
options = record {
  transport = codes "udp";
  tcp_port = 0;
  socket_path = codes "/s";
  gateway = v4 0xc0000201;
  remote_id = codes "gw";
  username = codes "bob";
  password = codes "secret";
  psk = codes "shared";
  ip_mode = ipv4;
}

abbrev plugins : Message
plugins =
    field (codes "plugins") (list_value (codes "eap-mschapv2" ∷ codes "eap-identity" ∷ []))
      empty_message

abbrev reply : Option Message → Bool → Reply
reply m f = record { message = m; messages = []; failed = f }

-- Everything but `load-conn` succeeds.
abbrev refusing : Daemon
refusing sent stats = reply (some plugins) false
refusing sent (load_conn name c) = reply none true
refusing sent c = reply (some empty_message) false

abbrev start : World
start = record { sent = []; relay_open = false }

abbrev last_command : List Command → Option Command
last_command [] = none
last_command (c ∷ cs) = some c

-- The connection is unloaded although loading it failed, and the first credential comes last.
refused_load :
    last_command (connect refusing demo options none (some (codes "01")) false start).1.sent
    ≡ some (unload_shared (codes "fortivpn-01-ike"))
unfolding connect preflight check_plugins check_unused setup close unload_all list get text_eq
refused_load = refl

connect-IsClean_example : IsClean (
    released refusing demo options
      (connect refusing demo options none (some (codes "01")) false start))
connect-IsClean_example = connect-IsClean refusing demo options none (some (codes "01")) false
