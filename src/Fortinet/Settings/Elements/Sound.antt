-- ===== src/Fortinet/Settings/Elements/Sound.antt =====
-- What every element of internal/fortinet/xml.go keeps true of the settings that are read.
use mathlib.Core.List.{foldl}
use fortivpn_go.Prelude.{
  ◌≡◌, refl, ◌⊎◌, inl, inr, Bool, true, false, ◌||◌, Option, none, some, List, [], ◌∷◌, arith,
  if◌then◌else◌, Bool-cases, All, ℤ, pos, negsuc, is_below, is_above, IsDistinctBy,
  append_unique-IsDistinctBy, append_unique-All, split, fields_func, atoi, Text, codes, is_empty,
  text_eq, trim_space, contains,
}
use fortivpn_go.Netip.{
  Addr, unset, addr_eq, is6, Prefix, zero_prefix, masked, masked_idem, AddrText,
}
use fortivpn_go.Network.{route_eq, IpConfig, Route, Config}
use fortivpn_go.Fortinet.Settings.{
  Attrs, attr, first, prefix_keys, parse_prefix, gateway_keys, gateway_or, first_gateway,
  parse_gateway,
}
use fortivpn_go.Fortinet.Settings.Elements.{
  append_unique_addr, append_unique_string, append_unique_method, append_unique_route, add_dns,
  add_domain, add_method, set_mtu, put_route, put_ip, one_name, address_names, dns_names,
  split_dns_names, route_names, destination_keys, is_separator, dns_server_keys, when, ip_of,
  put_config, parse_ip_config, route_of, add_route, parse_route, parse_addresses, dns_from,
  parse_dns, parse_split_dns, parse_methods, parse_servers, parse_rest, parse_element, parse_text,
}

-- A route of a family: its destination is of the family, or the zero prefix where the length was
-- out of range, and so is its gateway, if there is one.
abbrev pub IsRouteIn : Bool → Route → Type 0
IsRouteIn six r =
    ((is6 r.destination.addr ≡ six) ⊎ (r.destination ≡ zero_prefix))
    × (masked r.destination ≡ r.destination)
    × ((is6 r.gateway ≡ six) ⊎ (r.gateway ≡ unset))

abbrev pub IsNamed : Text → Type 0
IsNamed d = is_empty d ≡ false

abbrev pub IsNatural : ℤ → Type 0
IsNatural n = is_below n 0 ≡ false

abbrev pub IsDomains : List Text → Type 0
IsDomains ds = IsDistinctBy text_eq ds × All IsNamed ds

abbrev pub IsRoutesIn : Bool → List Route → Type 0
IsRoutesIn six rs = IsDistinctBy route_eq rs × All (IsRouteIn six) rs

-- The servers, domains, methods and routes without repetition, and an MTU that is not negative.
abbrev pub IsParsed : Config → Type 0
IsParsed c =
    IsDistinctBy addr_eq c.dns
    × IsDomains c.domains
    × IsDistinctBy text_eq c.tunnel_methods
    × IsRoutesIn false c.routes4
    × IsRoutesIn true c.routes6
    × IsNatural c.mtu

foldl-IsParsed :
    {A : Type 0} (f : Config → A → Config)
    → ((c : Config) (a : A) → IsParsed c → IsParsed (f c a))
    → (c : Config) (xs : List A) → IsParsed c
    → IsParsed (foldl f c xs)
foldl-IsParsed f h c [] p = p
foldl-IsParsed f h c (x ∷ xs) p = foldl-IsParsed f h (f c x) xs (h c x p)

pub if-IsParsed :
    (b : Bool) (c d : Config) → IsParsed c → IsParsed d → IsParsed (if b then c else d)
if-IsParsed true c d p q = p
if-IsParsed false c d p q = q

if0-IsParsed :
    (b : Bool) (m n : Config × Bool) → IsParsed m.0 → IsParsed n.0 → IsParsed (if b then m else n).0
if0-IsParsed true m n p q = p
if0-IsParsed false m n p q = q

when-IsParsed :
    (b : Bool) (f : Config → Config) (c : Config)
    → ((d : Config) → IsParsed d → IsParsed (f d))
    → IsParsed c
    → IsParsed (when b f c)
when-IsParsed true f c h p = h c p
when-IsParsed false f c h p = p

add_dns-IsParsed : (c : Config) (a : Option Addr) → IsParsed c → IsParsed (add_dns c a)
unfolding append_unique_addr
add_dns-IsParsed c none p = p
add_dns-IsParsed c (some a) (d, n, m, r4, r6, u) =
    (append_unique-IsDistinctBy addr_eq c.dns a d, n, m, r4, r6, u)

add_domain-IsParsed : (c : Config) (d : Text) → IsParsed c → IsParsed (add_domain c d)
unfolding append_unique_string
add_domain-IsParsed c [] p = p
add_domain-IsParsed c (x ∷ s) (d, n, m, r4, r6, u) = (
  d,
  (
    append_unique-IsDistinctBy text_eq c.domains (x ∷ s) n.0,
    append_unique-All text_eq IsNamed c.domains (x ∷ s) n.1 refl,
  ),
  m,
  r4,
  r6,
  u,
)

add_method-IsParsed : (c : Config) (v : Text) → IsParsed c → IsParsed (add_method c v)
unfolding append_unique_method
add_method-IsParsed c v (d, n, m, r4, r6, u) =
    (d, n, append_unique-IsDistinctBy text_eq c.tunnel_methods v m, r4, r6, u)

above-IsNatural : (n : ℤ) → is_above n 0 ≡ true → IsNatural n
above-IsNatural (pos n) h = ground arith
above-IsNatural (negsuc n) h = cc

set_mtu-IsParsed : (c : Config) (n : Option ℤ) → IsParsed c → IsParsed (set_mtu c n)
set_mtu-IsParsed c none p = p
set_mtu-IsParsed c (some n) (d, o, m, r4, r6, u) = elim (Bool-cases (is_above n 0)) [
  | inl h ↦ rw h (d, o, m, r4, r6, above-IsNatural n h)
  | inr h ↦ rw h (d, o, m, r4, r6, u)
]

pub put_route-IsParsed :
    (six : Bool) (c : Config) (r : Route)
    → IsRouteIn six r
    → IsParsed c
    → IsParsed (put_route six c r)
unfolding append_unique_route
put_route-IsParsed true c r i (d, o, m, r4, r6, u) = (
  d,
  o,
  m,
  r4,
  (
    append_unique-IsDistinctBy route_eq c.routes6 r r6.0,
    append_unique-All route_eq (IsRouteIn true) c.routes6 r r6.1 i,
  ),
  u,
)
put_route-IsParsed false c r i (d, o, m, r4, r6, u) = (
  d,
  o,
  m,
  (
    append_unique-IsDistinctBy route_eq c.routes4 r r4.0,
    append_unique-All route_eq (IsRouteIn false) c.routes4 r r4.1 i,
  ),
  r6,
  u,
)

put_ip-IsParsed :
    (six : Bool) (c : Config) (ip : IpConfig) → IsParsed c → IsParsed (put_ip six c ip)
put_ip-IsParsed true c ip p = p
put_ip-IsParsed false c ip p = p

masked_family :
    (p : Prefix) (six : Bool)
    → is6 p.addr ≡ six
    → (is6 (masked p).addr ≡ six) ⊎ (masked p ≡ zero_prefix)
unfolding masked
masked_family p six h = ground (arith, h)

module _ (net : AddrText) where
  gateway_or-IsFamily :
      (six : Bool) (a : Option Addr) (next : Addr)
      → (is6 next ≡ six) ⊎ (next ≡ unset)
      → (is6 (gateway_or net six a next) ≡ six) ⊎ (gateway_or net six a next ≡ unset)
  gateway_or-IsFamily six none next h = h
  gateway_or-IsFamily six (some a) next h = ground (arith, h)

  first_gateway-IsFamily :
      (six : Bool) (attrs : Attrs) (keys : List Text)
      → let g = first_gateway net six attrs keys in (is6 g ≡ six) ⊎ (g ≡ unset)
  unfolding first_gateway
  first_gateway-IsFamily six attrs [] = inr refl
  first_gateway-IsFamily six attrs (key ∷ keys) =
      gateway_or-IsFamily six (net.parse_addr (attr attrs key)) (first_gateway net six attrs keys)
        (first_gateway-IsFamily six attrs keys)

  route_of-IsRouteIn : (attrs : Attrs) (p : Prefix) → IsRouteIn (is6 p.addr) (route_of net attrs p)
  unfolding parse_gateway
  route_of-IsRouteIn attrs p = (
    masked_family p (is6 p.addr) refl,
    masked_idem p,
    first_gateway-IsFamily (is6 p.addr) attrs (gateway_keys net (is6 p.addr)),
  )

  put_config-IsParsed :
      (force_v6 : Bool) (attrs : Attrs) (c : Config) (p : Option Prefix)
      → IsParsed c
      → IsParsed (put_config net force_v6 attrs c p)
  put_config-IsParsed force_v6 attrs c none h = h
  put_config-IsParsed force_v6 attrs c (some p) h =
      put_ip-IsParsed (force_v6 || is6 p.addr) c (ip_of net attrs p) h

  parse_ip_config-IsParsed :
      (c : Config) (attrs : Attrs) (key : Text) (force_v6 : Bool)
      → IsParsed c
      → IsParsed (parse_ip_config net c attrs key force_v6)
  unfolding parse_ip_config
  parse_ip_config-IsParsed c attrs key force_v6 h = if-IsParsed (is_empty (attr attrs key)) c _ h (
      put_config-IsParsed force_v6 attrs c
        (parse_prefix net (attr attrs key) (attr attrs (codes "mask")) (first attrs prefix_keys)) h)

  add_route-IsParsed :
      (attrs : Attrs) (c : Config) (p : Option Prefix)
      → IsParsed c
      → IsParsed (add_route net attrs c p).0
  add_route-IsParsed attrs c none h = h
  add_route-IsParsed attrs c (some p) h =
      put_route-IsParsed (is6 p.addr) c (route_of net attrs p) (route_of-IsRouteIn attrs p) h

  parse_route-IsParsed :
      (c : Config) (attrs : Attrs) → IsParsed c → IsParsed (parse_route net c attrs).0
  unfolding parse_route
  parse_route-IsParsed c attrs h =
      let raw = first attrs destination_keys in
      if0-IsParsed (is_empty raw) (c, false) _ h
        (add_route-IsParsed attrs c
          (parse_prefix net raw (first attrs (codes "mask" ∷ codes "netmask" ∷ []))
            (first attrs prefix_keys))
          h)

  dns_from-IsParsed :
      (attrs : Attrs) (keys : List Text) (c : Config)
      → IsParsed c
      → IsParsed (dns_from net attrs keys c)
  dns_from-IsParsed attrs keys c h =
      foldl-IsParsed (λ d key. add_dns d (net.parse_addr (attr attrs key)))
        (λ d key p. add_dns-IsParsed d (net.parse_addr (attr attrs key)) p) c keys h

  parse_dns-IsParsed : (attrs : Attrs) (c : Config) → IsParsed c → IsParsed (parse_dns net attrs c)
  parse_dns-IsParsed attrs c h =
      foldl-IsParsed (λ d key. add_domain d (attr attrs key))
        (λ d key p. add_domain-IsParsed d (attr attrs key) p) _
        (codes "domain" ∷ codes "suffix" ∷ codes "search" ∷ [])
        (dns_from-IsParsed attrs
          (codes "ip" ∷ codes "ipv4" ∷ codes "ipv6" ∷ codes "addr" ∷ codes "address" ∷ []) c h)

  parse_split_dns-IsParsed :
      (attrs : Attrs) (c : Config) → IsParsed c → IsParsed (parse_split_dns net attrs c)
  parse_split_dns-IsParsed attrs c h = dns_from-IsParsed attrs dns_server_keys _ (
      foldl-IsParsed (λ d domain. add_domain d (trim_space domain))
        (λ d domain p. add_domain-IsParsed d (trim_space domain) p) c
        (split b',' (attr attrs (codes "domains"))) h)

  parse_methods-IsParsed :
      (attrs : Attrs) (c : Config) → IsParsed c → IsParsed (parse_methods net attrs c)
  parse_methods-IsParsed attrs c h =
      foldl-IsParsed (λ d key. foldl add_method d (fields_func is_separator (attr attrs key)))
        (λ d key p.
          foldl-IsParsed add_method add_method-IsParsed d
            (fields_func is_separator (attr attrs key)) p)
        c (codes "value" ∷ codes "method" ∷ codes "methods" ∷ codes "type" ∷ codes "protocol" ∷ [])
        h

  parse_addresses-IsParsed :
      (attrs : Attrs) (c : Config) → IsParsed c → IsParsed (parse_addresses net attrs c)
  parse_addresses-IsParsed attrs c h = parse_ip_config-IsParsed _ attrs (codes "addr") false (
      parse_ip_config-IsParsed _ attrs (codes "ip") false (
        parse_ip_config-IsParsed _ attrs (codes "ipv6") true
          (parse_ip_config-IsParsed c attrs (codes "ipv4") false h)))

  parse_servers-IsParsed :
      (name : Text) (attrs : Attrs) (c : Config)
      → IsParsed c
      → IsParsed (parse_servers net name attrs c)
  parse_servers-IsParsed name attrs c h =
      when-IsParsed (one_name split_dns_names name) (parse_split_dns net attrs) _
        (parse_split_dns-IsParsed attrs)
        (when-IsParsed (one_name dns_names name) (parse_dns net attrs) _ (parse_dns-IsParsed attrs)
          (when-IsParsed (one_name address_names name) (parse_addresses net attrs) c
            (parse_addresses-IsParsed attrs) h))

  parse_rest-IsParsed :
      (name : Text) (attrs : Attrs) (c : Config)
      → IsParsed c
      → IsParsed (parse_rest net name attrs c)
  parse_rest-IsParsed name attrs c h =
      when-IsParsed (contains (codes "tunnel") name) (parse_methods net attrs) _
        (parse_methods-IsParsed attrs)
        (set_mtu-IsParsed _ (atoi (attr attrs (codes "mtu"))) (
          when-IsParsed (text_eq name (codes "mtu"))
            (λ d. set_mtu d (atoi (attr attrs (codes "value")))) c
            (λ d p. set_mtu-IsParsed d (atoi (attr attrs (codes "value"))) p) h))

  pub parse_element-IsParsed :
      (c : Config) (name : Text) (attrs : Attrs)
      → IsParsed c
      → IsParsed (parse_element net c name attrs).0
  unfolding parse_element
  parse_element-IsParsed c name attrs h =
      let d = parse_servers net name attrs c in
      let k = parse_servers-IsParsed name attrs c h in
      if0-IsParsed (one_name route_names name) (parse_route net d attrs)
        (parse_rest net name attrs d, false) (parse_route-IsParsed d attrs k)
        (parse_rest-IsParsed name attrs d k)

  pub parse_text-IsParsed :
      (c : Config) (name raw : Text) → IsParsed c → IsParsed (parse_text net c name raw)
  unfolding parse_text
  parse_text-IsParsed c name raw h =
      let value = trim_space raw in
      if-IsParsed (is_empty value) c _ h (
        when-IsParsed
          (one_name (codes "tunnel-method" ∷ codes "tunnelmethod" ∷ codes "method" ∷ []) name)
          (λ d. add_method d value) _ (λ d p. add_method-IsParsed d value p)
          (when-IsParsed (text_eq name (codes "mtu")) (λ d. set_mtu d (atoi value)) c
            (λ d p. set_mtu-IsParsed d (atoi value) p) h))
