-- ===== src/Ipsec/Negotiated.antt =====
-- internal/ipsec/state.go: what the daemon negotiated, checked against what was asked for.
mod Remotes
pub mod Sound
pub mod Demo
mod Examples
use fortivpn_go.Prelude.{
  ℕ, ◌+◌, Bool, true, false, not, ◌&&◌, ◌||◌, Option, none, some, List, [], ◌∷◌, ◌++◌, ltb, ◌==◌,
  if◌then◌else◌, length, any, Result, ok, err, ◌>>=◌, ◌>>◌, reject, pos, Text, codes, text_eq,
}
use fortivpn_go.Netip.{
  Addr, unset, v4, v6, addr_eq, is4, is6, is_4in6, is_unspecified, is_multicast, Prefix, prefix_eq,
  prefix_from, masked, prefix_contains, AddrText,
}
use fortivpn_go.Network.{
  route_eq, IpMode, ipv4, dual, IpConfig, Route, Config, is_nil, no_items, bool_eq,
}
use fortivpn_go.Ipsec.Options.{Options, tcp}
use fortivpn_go.Ipsec.Vici.{section, Message, empty_message, field, text, list, subsection}

pub data InfoError : Type 0 where
  wrong_peer invalid_vip multiple_ipv4 multiple_ipv6 missing_family unexpected_ipv6 : InfoError
  no_children not_esp_tunnel local_mismatch missing_remotes invalid_remote : InfoError
  contains_gateway contains_relay too_many_routes child_missing no_session : InfoError

-- `session.Info`; the interface stays empty here.
pub record Info : Type 0 where
  pub gateway : Text
  pub config : Config

abbrev pub max_routes : ℕ
max_routes = 32

abbrev pub empty_config : Config
empty_config = record {
  ipv4_config = none;
  ipv6_config = none;
  dns = [];
  domains = [];
  routes4 = [];
  routes6 = [];
  mtu = pos 0;
  tunnel_methods = [];
}

abbrev pub loopback : Addr
loopback = v4 0x7f000001

abbrev pub loopback_text : Text
loopback_text = codes "127.0.0.1"

abbrev pub is_dual : IpMode → Bool
is_dual dual = true
is_dual m = false

abbrev pub is_ipv4_mode : IpMode → Bool
is_ipv4_mode ipv4 = true
is_ipv4_mode m = false

-- `fmt.Sprintf("%s-%d", name, i)`: at most two children are asked for, so `i` is one digit.
unfoldable pub child_name : Text → ℕ → Text
child_name name i = name ++ (b'-' ∷ (48 + i) ∷ [])

-- The traffic selectors that are proposed: the index of the child, and whether it is IPv6. The two
-- texts, "0.0.0.0/0" and "::/0", are the default prefixes of the families.
unfoldable pub child_selectors : IpMode → List (ℕ × Bool)
child_selectors mode = if is_dual mode then (0, false) ∷ (1, true) ∷ [] else (0, false) ∷ []

unfoldable pub append_route : List Route → Route → List Route
append_route routes r = if any (λ v. route_eq v r) routes then routes else routes ++ (r ∷ [])

-- The states in which a child carries traffic.
abbrev pub is_live : Text → Bool
is_live state =
    text_eq state (codes "INSTALLED")
    || text_eq state (codes "REKEYING")
    || text_eq state (codes "REKEYED")

abbrev pub is_child : Text → Message → Bool
is_child wanted child =
    text_eq (text child (codes "name")) wanted && is_live (text child (codes "state"))

-- The first child of that name in a live state.
unfoldable pub find_child : Text → Message → Option Message
find_child wanted empty_message = none
find_child wanted (field key (section child) rest) =
    if is_child wanted child then some child else find_child wanted rest
find_child wanted (field key value rest) = find_child wanted rest

abbrev pub is_default : Prefix → Bool
is_default p = p.bits_plus_one == 1

module _ (net : AddrText) (o : Options) (relayed : Bool) where
  -- One virtual address of the list.
  unfoldable pub add_vip : Config → Option Addr → Result InfoError Config
  add_vip c none = err invalid_vip
  add_vip c (some unset) = err invalid_vip
  add_vip c (some (v4 a)) =
      if is_unspecified (v4 a) || is_multicast (v4 a)
      then err invalid_vip
      else if is_nil c.ipv4_config
      then ok (record c {
        ipv4_config = some (record { address = prefix_from (v4 a) (pos 32); gateway = unset });
      })
      else err multiple_ipv4
  add_vip c (some (v6 a z)) =
      if is_unspecified (v6 a z) || is_multicast (v6 a z)
      then err invalid_vip
      else if is_nil c.ipv6_config
      then ok (record c {
        ipv6_config = some (record { address = prefix_from (v6 a z) (pos 128); gateway = unset });
      })
      else err multiple_ipv6

  unfoldable pub add_vips : Config → List Text → Result InfoError Config
  unfolding add_vip
  add_vips c [] = ok c
  add_vips c (raw ∷ rest) = do c' ← add_vip c (net.parse_addr raw); add_vips c' rest

  unfoldable pub check_families : Config → Result InfoError (Unit {0})
  check_families c = do
    reject (is_nil c.ipv4_config || (is_dual o.ip_mode && is_nil c.ipv6_config)) missing_family
    reject (is_ipv4_mode o.ip_mode && not (is_nil c.ipv6_config)) unexpected_ipv6

  -- The checks on one remote selector, and the route that it becomes.
  unfoldable pub check_remote : Bool → Option Prefix → Result InfoError Prefix
  check_remote six none = err invalid_remote
  check_remote six (some p) = do
    reject
        (not (prefix_eq p (masked p))
          || is_4in6 p.addr
          || is_multicast p.addr
          || not (bool_eq (is6 p.addr) six))
        invalid_remote
    reject (not (is_default p) && is4 p.addr && prefix_contains p o.gateway) contains_gateway
    reject
        (not (is_default p) && text_eq o.transport tcp && is4 p.addr && prefix_contains p loopback)
        contains_relay
    ok p

  abbrev pub route_to : Prefix → Route
  route_to p = record { destination = p; gateway = unset }

  abbrev pub with_route : Config → Prefix → Config
  with_route c p =
      if is4 p.addr
      then record c { routes4 = append_route c.routes4 (route_to p) }
      else record c { routes6 = append_route c.routes6 (route_to p) }

  unfoldable pub add_remotes : Bool → Config → List Text → Result InfoError Config
  unfolding check_remote
  add_remotes six c [] = ok c
  add_remotes six c (raw ∷ rest) = do
    p ← check_remote six (net.parse_prefix raw)
    reject (ltb max_routes (length (with_route c p).routes4 + length (with_route c p).routes6))
        too_many_routes
    add_remotes six (with_route c p) rest

  abbrev pub vip_text : Option IpConfig → Option Text
  vip_text none = none
  vip_text (some ip) = some (net.prefix_string ip.address)

  -- `len(locals) != 1 || vip == nil || locals[0] != vip.Address.String()`
  abbrev pub matches_vip : List Text → Option Text → Bool
  matches_vip (l ∷ []) (some t) = text_eq l t
  matches_vip _ _ = false

  unfoldable pub check_child : Bool → Config → Message → Result InfoError Config
  unfolding add_remotes
  check_child six c child = do
    reject
        (not (text_eq (text child (codes "mode")) (codes "TUNNEL"))
          || not (text_eq (text child (codes "protocol")) (codes "ESP"))
          || not (text_eq (text child (codes "encap")) (codes "yes")))
        not_esp_tunnel
    reject
        (not (
          matches_vip (list child (codes "local-ts"))
            (vip_text (if six then c.ipv6_config else c.ipv4_config))))
        local_mismatch
    reject (no_items (list child (codes "remote-ts"))) missing_remotes
    add_remotes six c (list child (codes "remote-ts"))

  abbrev pub child_found : Bool → Config → Option Message → Result InfoError Config
  child_found six c none = err child_missing
  child_found six c (some child) = check_child six c child

  unfoldable pub check_children :
      Text → Message → Config → List (ℕ × Bool) → Result InfoError Config
  unfolding check_child
  check_children name children c [] = ok c
  check_children name children c ((i, six) ∷ rest) = do
    c' ← child_found six c (find_child (child_name name i) children)
    check_children name children c' rest

  abbrev pub children_found : Text → Config → Option Message → Result InfoError Config
  children_found name c none = err no_children
  children_found name c (some children) = check_children name children c (child_selectors o.ip_mode)

  -- The body of the loop of `info`, for an established SA.
  unfoldable pub check_sa : Text → Message → Result InfoError Info
  unfolding add_vips check_families check_children
  check_sa name sa = do
    reject
        (not (text_eq (text sa (codes "remote-id")) o.remote_id)
          || not (
              text_eq (text sa (codes "remote-host"))
                (if relayed then loopback_text else net.addr_string o.gateway)))
        wrong_peer
    c ← add_vips empty_config (list sa (codes "local-vips"))
    check_families c
    c' ← children_found name c (subsection sa (codes "child-sas"))
    ok (record { gateway = net.addr_string o.gateway; config = c' })

  abbrev pub is_established : Option Message → Bool
  is_established none = false
  is_established (some sa) = text_eq (text sa (codes "state")) (codes "ESTABLISHED")

  abbrev pub check_found : Text → Option Message → Result InfoError Info
  check_found name none = err no_session
  check_found name (some sa) = check_sa name sa

  -- `info`: the first established SA decides.
  unfoldable pub info : Text → List Message → Result InfoError Info
  unfolding check_sa
  info name [] = err no_session
  info name (message ∷ rest) =
      if is_established (subsection message name)
      then check_found name (subsection message name)
      else info name rest
