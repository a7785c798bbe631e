-- ===== src/Network.antt =====
-- internal/network/config.go: the family-neutral network settings of a session.
pub mod Modes
mod Examples
use fortivpn_go.Prelude.{
  Bool, true, false, ◌&&◌, ◌||◌, not, Option, none, some, List, [], ◌∷◌, if◌then◌else◌, Text,
  Result, ok, err, ℤ, is_zero,
}
use fortivpn_go.Netip.{Addr, addr_eq, Prefix, prefix_eq, addr_is_valid, is6}

-- `IPMode` is a string type: its four constants, and any other text.
pub data IpMode : Type 0 where
  auto ipv4 ipv6 dual : IpMode
  other : Text → IpMode

pub record IpConfig : Type 0 where
  pub address : Prefix
  pub gateway : Addr

pub record Route : Type 0 where
  pub destination : Prefix
  pub gateway : Addr

-- Equality of the two fields.
abbrev pub route_eq : Route → Route → Bool
route_eq r s = prefix_eq r.destination s.destination && addr_eq r.gateway s.gateway

-- `TunnelMethod` is a string type.
pub record Config : Type 0 where
  pub ipv4_config : Option IpConfig
  pub ipv6_config : Option IpConfig
  pub dns : List Addr
  pub domains : List Text
  pub routes4 : List Route
  pub routes6 : List Route
  pub mtu : ℤ
  pub tunnel_methods : List Text

abbrev pub is_nil {ℓ} : {A : Type ℓ} → Option A → Bool
is_nil none = true
is_nil (some a) = false

abbrev pub no_items {ℓ} : {A : Type ℓ} → List A → Bool
no_items [] = true
no_items (x ∷ xs) = false

unfoldable pub is_empty_config : Config → Bool
is_empty_config c =
    is_nil c.ipv4_config
    && is_nil c.ipv6_config
    && no_items c.dns
    && no_items c.domains
    && no_items c.routes4
    && no_items c.routes6
    && is_zero c.mtu
    && no_items c.tunnel_methods

pub data ModeError : Type 0 where
  nil_config no_ipv4 no_ipv6 not_dual unsupported_mode : ModeError

-- `a == b` on Booleans
abbrev pub bool_eq : Bool → Bool → Bool
bool_eq true b = b
bool_eq false b = not b

unfoldable pub filter_addrs : List Addr → Bool → List Addr
filter_addrs [] want6 = []
filter_addrs (a ∷ rest) want6 =
    let others = filter_addrs rest want6 in
    if addr_is_valid a && bool_eq (is6 a) want6 then a ∷ others else others

restrict : Config → IpMode → Result ModeError Config
restrict c auto = ok c
restrict c ipv4 =
    if is_nil c.ipv4_config
    then err no_ipv4
    else ok (record c { ipv6_config = none; routes6 = []; dns = filter_addrs c.dns false })
restrict c ipv6 =
    if is_nil c.ipv6_config
    then err no_ipv6
    else ok (record c { ipv4_config = none; routes4 = []; dns = filter_addrs c.dns true })
restrict c dual = if is_nil c.ipv4_config || is_nil c.ipv6_config then err not_dual else ok c
restrict c (other t) = err unsupported_mode

-- A nil receiver is `none`.
unfoldable pub for_ip_mode : Option Config → IpMode → Result ModeError Config
unfolding restrict
for_ip_mode none mode = err nil_config
for_ip_mode (some c) mode = restrict c mode
