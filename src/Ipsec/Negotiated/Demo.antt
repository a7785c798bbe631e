-- ===== src/Ipsec/Negotiated/Demo.antt =====
-- A dual-stack session as the daemon would report it, for the tests.
use fortivpn_go.Prelude.{
  ◌≡◌, refl, true, Option, none, some, List, [], ◌∷◌, if◌then◌else◌, ok, pos, Text, codes, text_eq,
}
use fortivpn_go.Netip.{
  Addr, unset, v4, v6, addr_eq, is_multicast, Prefix, prefix_eq, prefix_from, masked,
  prefix_contains, AddrText,
}
use fortivpn_go.Network.{dual, Route}
use fortivpn_go.Ipsec.Options.{Options}
use fortivpn_go.Ipsec.Vici.{
  text_value, list_value, section, Message, empty_message, field, get, text, list, subsection,
}
use fortivpn_go.Ipsec.Negotiated.{
  Info, empty_config, child_name, child_selectors, append_route, find_child, add_vip, add_vips,
  check_families, check_remote, add_remotes, check_child, check_children, check_sa, info,
}

abbrev pub gateway : Addr
gateway = v4 0xc0000201

abbrev pub host : Addr
host = v4 0x0a000005

abbrev pub host6 : Addr
host6 = v6 0xfd000000000000000000000000000005 []

abbrev pub office : Prefix
office = record { addr = v4 0x0a010000; bits_plus_one = 17 }

abbrev pub office6 : Prefix
office6 = record { addr = v6 0xfd000000000000000000000000000000 []; bits_plus_one = 65 }

-- The texts of the example, in place of the parsers.
abbrev pub demo_addr : Text → Option Addr
demo_addr t =
    if text_eq t (codes "10.0.0.5")
    then some host
    else if text_eq t (codes "fd00::5")
    then some host6
    else none

abbrev pub demo_prefix : Text → Option Prefix
demo_prefix t =
    if text_eq t (codes "10.1.0.0/16")
    then some office
    else if text_eq t (codes "fd00::/64")
    then some office6
    else none

abbrev pub demo_addr_string : Addr → Text
demo_addr_string a = if addr_eq a gateway then codes "192.0.2.1" else []

abbrev pub demo_prefix_string : Prefix → Text
demo_prefix_string p =
    if prefix_eq p (prefix_from host (pos 32))
    then codes "10.0.0.5/32"
    else if prefix_eq p (prefix_from host6 (pos 128))
    then codes "fd00::5/128"
    else []

abbrev pub demo : AddrText
demo = record {
  parse_addr = demo_addr;
  parse_prefix = demo_prefix;
  addr_string = demo_addr_string;
  prefix_string = demo_prefix_string;
}

abbrev pub asked : Options
asked = record {
  transport = codes "tcp";
  tcp_port = 0;
  socket_path = [];
  gateway = gateway;
  remote_id = codes "vpn.example.test";
  username = codes "bob";
  password = codes "secret";
  psk = codes "shared";
  ip_mode = dual;
}

abbrev pub filled : Options
filled = record asked { tcp_port = 4500; socket_path = codes "/var/run/charon.vici" }

abbrev pub child : Text → Text → Text → Message
child name local remote = field (codes "name") (text_value name) (
    field (codes "state") (text_value (codes "INSTALLED")) (
      field (codes "mode") (text_value (codes "TUNNEL")) (
        field (codes "protocol") (text_value (codes "ESP")) (
          field (codes "encap") (text_value (codes "yes")) (
            field (codes "local-ts") (list_value (local ∷ []))
              (field (codes "remote-ts") (list_value (remote ∷ [])) empty_message))))))

abbrev pub children : Message
children =
    field (codes "s-0-1")
      (section (child (codes "s-0") (codes "10.0.0.5/32") (codes "10.1.0.0/16")))
      (field (codes "s-1-2")
        (section (child (codes "s-1") (codes "fd00::5/128") (codes "fd00::/64"))) empty_message)

abbrev pub established : Message
established = field (codes "state") (text_value (codes "ESTABLISHED")) (
    field (codes "remote-id") (text_value (codes "vpn.example.test")) (
      field (codes "remote-host") (text_value (codes "127.0.0.1")) (
        field (codes "local-vips") (list_value (codes "10.0.0.5" ∷ codes "fd00::5" ∷ []))
          (field (codes "child-sas") (section children) empty_message))))

abbrev pub report : List Message
report = field (codes "s") (section established) empty_message ∷ []

abbrev pub direct : Prefix → Route
direct p = record { destination = p; gateway = unset }

abbrev pub negotiated : Info
negotiated = record {
  gateway = codes "192.0.2.1";
  config = record empty_config {
    ipv4_config = some (record { address = prefix_from host (pos 32); gateway = unset });
    ipv6_config = some (record { address = prefix_from host6 (pos 128); gateway = unset });
    routes4 = direct office ∷ [];
    routes6 = direct office6 ∷ [];
  };
}

pub info_negotiated : info demo filled true (codes "s") report ≡ ok negotiated
unfolding info check_sa add_vips add_vip check_families check_children check_child add_remotes
    check_remote append_route find_child child_name child_selectors text list subsection get text_eq
    addr_eq prefix_eq masked prefix_contains is_multicast prefix_from
info_negotiated = refl
