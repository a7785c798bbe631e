-- ===== src/Fortinet/Settings/Examples.antt =====
-- A document, a mask, and the theorems at them.
use fortivpn_go.Prelude.{
  ◌≡◌, refl, false, Option, none, some, [], ◌∷◌, arith, if◌then◌else◌, pos, fields_func, atoi, Text,
  codes, text_eq, trim_space, to_lower, contains,
}
use fortivpn_go.Netip.{Addr, unset, v4, addr_eq, prefix_from, masked, AddrText}
use fortivpn_go.Network.{Config}
use fortivpn_go.Tun.Ifconfig.{netmask}
use fortivpn_go.Fortinet.Settings.{
  attributes, find_attr, attr, first, mask_bits, prefix_bits, parse_prefix, first_gateway,
  parse_gateway,
}
use fortivpn_go.Fortinet.Settings.Masks.{parse_prefix-netmask}
use fortivpn_go.Fortinet.Settings.Elements.{
  append_unique_addr, append_unique_route, parse_ip_config, parse_route, parse_element, parse_text,
}
use fortivpn_go.Fortinet.Settings.Elements.Sound.{IsParsed}
use fortivpn_go.Fortinet.Settings.Document.{
  start_element, end_element, Tokens, family_of, mark_enclosing, mark_route, add_default_route,
  parse_token, parse_tokens, parse_network_config,
}
use fortivpn_go.Fortinet.Settings.Document.Sound.{parse_network_config-IsParsed}

abbrev demo_addr : Text → Option Addr
demo_addr t =
    if text_eq t (codes "10.0.0.5")
    then some (v4 0x0a000005)
    else if text_eq t (codes "10.1.2.3")
    then some (v4 0x0a010203)
    else if text_eq t (codes "255.255.0.0")
    then some (v4 0xffff0000)
    else none

abbrev demo : AddrText
demo = record {
  parse_addr = demo_addr;
  parse_prefix = λ t. none;
  addr_string = λ a. codes "10.0.0.5";
  prefix_string = λ p. codes "10.0.0.5/32";
}

mask-value : netmask 16 ≡ 0xffff0000
unfolding netmask
mask-value = refl

mask-read : demo_addr (codes "255.255.0.0") ≡ some (v4 (netmask 16))
unfolding netmask text_eq
mask-read = refl

addr-read : demo_addr (codes "10.1.2.3") ≡ some (v4 0x0a010203)
unfolding text_eq
addr-read = refl

parse_prefix-netmask_example :
    parse_prefix demo (codes "10.1.2.3") (codes "255.255.0.0") []
    ≡ some (record { addr = v4 0x0a010203; bits_plus_one = 17 })
parse_prefix-netmask_example =
    parse_prefix-netmask demo (codes "10.1.2.3") (codes "255.255.0.0") [] 0x0a010203 16
      (omega arith) refl addr-read refl mask-read

-- An address, a DNS server twice, and a route with host bits.
abbrev document : Tokens
document = record {
  tokens =
      start_element (codes "IPv4") []
      ∷ start_element (codes "assigned-addr") ((codes "ipv4", codes "10.0.0.5") ∷ [])
      ∷ end_element
      ∷ start_element (codes "dns") ((codes "ip", codes " 10.0.0.5 ") ∷ [])
      ∷ end_element
      ∷ start_element (codes "dns") ((codes "ip", codes "10.0.0.5") ∷ [])
      ∷ end_element
      ∷ start_element (codes "split-tunnel-info") []
      ∷ start_element (codes "addr")
          ((codes "ip", codes "10.1.2.3") ∷ (codes "mask", codes "255.255.0.0") ∷ [])
      ∷ end_element
      ∷ end_element
      ∷ end_element
      ∷ [];
  failed = false;
}

abbrev settings : Config
settings = record {
  ipv4_config =
      some
        (record { address = record { addr = v4 0x0a000005; bits_plus_one = 33 }; gateway = unset });
  ipv6_config = none;
  dns = v4 0x0a000005 ∷ [];
  domains = [];
  routes4 =
      record { destination = record { addr = v4 0x0a010000; bits_plus_one = 17 }; gateway = unset }
      ∷ [];
  routes6 = [];
  mtu = pos 0;
  tunnel_methods = [];
}

document-read : parse_network_config demo document ≡ some settings
unfolding parse_network_config parse_tokens parse_token parse_element parse_text mark_route
    mark_enclosing add_default_route family_of to_lower trim_space text_eq attributes attr find_attr
    first parse_prefix prefix_bits mask_bits parse_gateway append_unique_addr append_unique_route
    parse_ip_config parse_route masked prefix_from contains first_gateway fields_func atoi addr_eq
document-read = refl

parse_network_config-IsParsed_example : IsParsed settings
parse_network_config-IsParsed_example =
    parse_network_config-IsParsed demo document settings document-read
