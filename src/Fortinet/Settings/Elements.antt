-- ===== src/Fortinet/Settings/Elements.antt =====
-- internal/fortinet/xml.go: what one element adds to the settings.
pub mod Sound
use mathlib.Core.List.{foldl}
use fortivpn_go.Prelude.{
  ℕ, Bool, true, false, ◌&&◌, ◌||◌, Option, none, some, List, [], ◌∷◌, ◌++◌, map, ◌==◌,
  if◌then◌else◌, any, ℤ, is_above, append_unique, split, fields_func, atoi, Text, codes, is_empty,
  text_eq, trim_space, contains,
}
use fortivpn_go.Netip.{Addr, addr_eq, is6, Prefix, prefix_eq, masked, AddrText}
use fortivpn_go.Network.{route_eq, ipv4, ipv6, IpConfig, Route, Config}
use fortivpn_go.Fortinet.Settings.{Attrs, attr, first, prefix_keys, parse_prefix, parse_gateway}

unfoldable pub append_unique_addr : List Addr → Addr → List Addr
append_unique_addr = append_unique addr_eq

unfoldable pub append_unique_string : List Text → Text → List Text
append_unique_string = append_unique text_eq

-- A `TunnelMethod` is a string.
unfoldable pub append_unique_method : List Text → Text → List Text
append_unique_method = append_unique text_eq

unfoldable pub append_unique_route : List Route → Route → List Route
append_unique_route = append_unique route_eq

abbrev pub add_dns : Config → Option Addr → Config
add_dns c none = c
add_dns c (some a) = record c { dns = append_unique_addr c.dns a }

abbrev pub add_domain : Config → Text → Config
add_domain c value =
    if is_empty value then c else record c { domains = append_unique_string c.domains value }

abbrev pub add_method : Config → Text → Config
add_method c m = record c { tunnel_methods = append_unique_method c.tunnel_methods m }

-- An MTU that is above 0 counts.
abbrev pub set_mtu : Config → Option ℤ → Config
set_mtu c none = c
set_mtu c (some n) = if is_above n 0 then record c { mtu = n } else c

abbrev pub put_route : Bool → Config → Route → Config
put_route six c r =
    if six
    then record c { routes6 = append_unique_route c.routes6 r }
    else record c { routes4 = append_unique_route c.routes4 r }

abbrev pub put_ip : Bool → Config → IpConfig → Config
put_ip six c ip =
    if six then record c { ipv6_config = some ip } else record c { ipv4_config = some ip }

abbrev pub one_name : List Text → Text → Bool
one_name names name = any (λ n. text_eq name n) names

abbrev pub address_names : List Text
address_names = codes "assigned-addr" ∷ codes "assigned_addr" ∷ codes "ip" ∷ []

abbrev pub dns_names : List Text
dns_names = codes "dns" ∷ codes "dns-server" ∷ codes "dns_server" ∷ []

abbrev pub split_dns_names : List Text
split_dns_names = codes "split-dns" ∷ codes "split_dns" ∷ []

abbrev pub route_names : List Text
route_names = codes "addr" ∷ codes "route" ∷ codes "routev4" ∷ codes "routev6" ∷ []

abbrev pub destination_keys : List Text
destination_keys =
    codes "ip"
    ∷ codes "dest"
    ∷ codes "destination"
    ∷ codes "network"
    ∷ codes "addr"
    ∷ codes "ipv4"
    ∷ codes "ipv6"
    ∷ []

abbrev pub is_separator : ℕ → Bool
is_separator c = c == b',' || c == b';' || c == b' '

-- "dnsserver1" to "dnsserver9"
abbrev pub dns_server_keys : List Text
dns_server_keys =
    map (λ d. codes "dnsserver" ++ (d ∷ [])) (49 ∷ 50 ∷ 51 ∷ 52 ∷ 53 ∷ 54 ∷ 55 ∷ 56 ∷ 57 ∷ [])

abbrev pub when : Bool → (Config → Config) → Config → Config
when b f c = if b then f c else c

module _ (net : AddrText) where
  abbrev pub ip_of : Attrs → Prefix → IpConfig
  ip_of attrs p = record { address = p; gateway = parse_gateway net attrs (is6 p.addr) }

  abbrev pub put_config : Bool → Attrs → Config → Option Prefix → Config
  put_config force_v6 attrs c none = c
  put_config force_v6 attrs c (some p) = put_ip (force_v6 || is6 p.addr) c (ip_of attrs p)

  -- `parseIPConfig`
  unfoldable pub parse_ip_config : Config → Attrs → Text → Bool → Config
  parse_ip_config c attrs key force_v6 =
      let raw = attr attrs key in
      if is_empty raw
      then c
      else put_config force_v6 attrs c
          (parse_prefix net raw (attr attrs (codes "mask")) (first attrs prefix_keys))

  abbrev pub route_of : Attrs → Prefix → Route
  route_of attrs p = record {
    destination = masked p;
    gateway = parse_gateway net attrs (is6 p.addr);
  }

  abbrev pub add_route : Attrs → Config → Option Prefix → Config × Bool
  add_route attrs c none = (c, false)
  add_route attrs c (some p) = (put_route (is6 p.addr) c (route_of attrs p), true)

  -- `parseRoute`
  unfoldable pub parse_route : Config → Attrs → Config × Bool
  parse_route c attrs =
      let raw = first attrs destination_keys in
      if is_empty raw
      then (c, false)
      else add_route attrs c (
          parse_prefix net raw (first attrs (codes "mask" ∷ codes "netmask" ∷ []))
            (first attrs prefix_keys))

  abbrev pub parse_addresses : Attrs → Config → Config
  parse_addresses attrs c =
      parse_ip_config
        (parse_ip_config
          (parse_ip_config (parse_ip_config c attrs (codes "ipv4") false) attrs (codes "ipv6") true)
          attrs (codes "ip") false)
        attrs (codes "addr") false

  abbrev pub dns_from : Attrs → List Text → Config → Config
  dns_from attrs keys c = foldl (λ d key. add_dns d (net.parse_addr (attr attrs key))) c keys

  abbrev pub parse_dns : Attrs → Config → Config
  parse_dns attrs c =
      foldl (λ d key. add_domain d (attr attrs key))
        (dns_from attrs
          (codes "ip" ∷ codes "ipv4" ∷ codes "ipv6" ∷ codes "addr" ∷ codes "address" ∷ []) c)
        (codes "domain" ∷ codes "suffix" ∷ codes "search" ∷ [])

  abbrev pub parse_split_dns : Attrs → Config → Config
  parse_split_dns attrs c = dns_from attrs dns_server_keys (
      foldl (λ d domain. add_domain d (trim_space domain)) c
        (split b',' (attr attrs (codes "domains"))))

  abbrev pub parse_methods : Attrs → Config → Config
  parse_methods attrs c =
      foldl (λ d key. foldl add_method d (fields_func is_separator (attr attrs key))) c
        (codes "value" ∷ codes "method" ∷ codes "methods" ∷ codes "type" ∷ codes "protocol" ∷ [])

  abbrev pub parse_servers : Text → Attrs → Config → Config
  parse_servers name attrs c = when (one_name split_dns_names name) (parse_split_dns attrs) (
      when (one_name dns_names name) (parse_dns attrs)
        (when (one_name address_names name) (parse_addresses attrs) c))

  -- The parts after the return for a route. An MTU that is missing is no number either.
  abbrev pub parse_rest : Text → Attrs → Config → Config
  parse_rest name attrs c = when (contains (codes "tunnel") name) (parse_methods attrs) (
      set_mtu
        (when (text_eq name (codes "mtu")) (λ d. set_mtu d (atoi (attr attrs (codes "value")))) c)
        (atoi (attr attrs (codes "mtu"))))

  -- `parseElement`; its result is whether it added a route.
  unfoldable pub parse_element : Config → Text → Attrs → Config × Bool
  unfolding parse_route parse_ip_config
  parse_element c name attrs =
      let d = parse_servers name attrs c in
      if one_name route_names name then parse_route d attrs else (parse_rest name attrs d, false)

  -- `parseText`
  unfoldable pub parse_text : Config → Text → Text → Config
  parse_text c name raw =
      let value = trim_space raw in
      if is_empty value
      then c
      else when (one_name (codes "tunnel-method" ∷ codes "tunnelmethod" ∷ codes "method" ∷ []) name)
          (λ d. add_method d value)
          (when (text_eq name (codes "mtu")) (λ d. set_mtu d (atoi value)) c)
