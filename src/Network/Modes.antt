-- ===== src/Network/Modes.antt =====
-- What `ForIPMode` keeps and drops, for each mode.
use fortivpn_go.Prelude.{
  ◌≡◌, refl, ◌≢◌, Bool, true, false, none, some, List, [], ◌∷◌, ◌&&◌, arith, All, ok, Bool-cases,
  inl, inr,
}
use fortivpn_go.Netip.{Addr, v4, v6, unset, addr_is_valid, is4, is6}
use fortivpn_go.Network.{
  IpMode, auto, ipv4, ipv6, dual, other, Config, bool_eq, filter_addrs, for_ip_mode,
}

abbrev pub IsV4 : Addr → Type 0
IsV4 a = is4 a ≡ true

abbrev pub IsV6 : Addr → Type 0
IsV6 a = is6 a ≡ true

-- `d` is the part of `c` that the mode asks for.
abbrev pub Selects : IpMode → Config → Config → Type 0
Selects auto c d = d ≡ c
Selects ipv4 c d =
    (d.ipv4_config ≢ none)
    × (d.ipv4_config ≡ c.ipv4_config)
    × (d.routes4 ≡ c.routes4)
    × (d.ipv6_config ≡ none)
    × (d.routes6 ≡ [])
    × All IsV4 d.dns
    × (d.mtu ≡ c.mtu)
Selects ipv6 c d =
    (d.ipv6_config ≢ none)
    × (d.ipv6_config ≡ c.ipv6_config)
    × (d.routes6 ≡ c.routes6)
    × (d.ipv4_config ≡ none)
    × (d.routes4 ≡ [])
    × All IsV6 d.dns
    × (d.mtu ≡ c.mtu)
Selects dual c d = (d ≡ c) × (d.ipv4_config ≢ none) × (d.ipv6_config ≢ none)
Selects (other t) c d = ⊥

pub filter_addrs-IsV4 : (as' : List Addr) → All IsV4 (filter_addrs as' false)
unfolding filter_addrs
filter_addrs-IsV4 [] = tt
filter_addrs-IsV4 (unset ∷ as') = filter_addrs-IsV4 as'
filter_addrs-IsV4 (v4 a ∷ as') = (refl, filter_addrs-IsV4 as')
filter_addrs-IsV4 (v6 a s ∷ as') = filter_addrs-IsV4 as'

pub filter_addrs-IsV6 : (as' : List Addr) → All IsV6 (filter_addrs as' true)
unfolding filter_addrs
filter_addrs-IsV6 [] = tt
filter_addrs-IsV6 (unset ∷ as') = filter_addrs-IsV6 as'
filter_addrs-IsV6 (v4 a ∷ as') = filter_addrs-IsV6 as'
filter_addrs-IsV6 (v6 a s ∷ as') = (refl, filter_addrs-IsV6 as')

pub filter_addrs_idem :
    (as' : List Addr) (b : Bool) → filter_addrs (filter_addrs as' b) b ≡ filter_addrs as' b
unfolding filter_addrs
filter_addrs_idem [] b = refl
filter_addrs_idem (a ∷ as') b = elim (Bool-cases (addr_is_valid a && bool_eq (is6 a) b)) [
  | inl e ↦ rw e (rw e (rw (filter_addrs_idem as' b)))
  | inr e ↦ rw e (filter_addrs_idem as' b)
]

-- When `ForIPMode` succeeds, the result is the part of the settings that the mode asks for: auto
-- keeps everything; ipv4 (ipv6) has an address of that family, keeps its address and routes and the
-- MTU, drops those of the other family, and leaves only DNS servers of that family; dual keeps
-- everything and has both addresses; and no other mode succeeds.
pub for_ip_mode-Selects :
    (mode : IpMode) (c d : Config) → for_ip_mode (some c) mode ≡ ok d → Selects mode c d
unfolding for_ip_mode
for_ip_mode-Selects auto c d h = ground arith
for_ip_mode-Selects ipv4 c d h = ground (arith, filter_addrs-IsV4 c.dns)
for_ip_mode-Selects ipv6 c d h = ground (arith, filter_addrs-IsV6 c.dns)
for_ip_mode-Selects dual c d h = ground arith
for_ip_mode-Selects (other t) c d h = cc

-- Selecting a mode a second time changes nothing.
pub for_ip_mode_idem :
    (mode : IpMode) (c d : Config)
    → for_ip_mode (some c) mode ≡ ok d
    → for_ip_mode (some d) mode ≡ ok d
unfolding for_ip_mode
for_ip_mode_idem auto c d h = refl
for_ip_mode_idem ipv4 c d h = ground (arith, filter_addrs_idem c.dns false)
for_ip_mode_idem ipv6 c d h = ground (arith, filter_addrs_idem c.dns true)
for_ip_mode_idem dual c d h = ground arith
for_ip_mode_idem (other t) c d h = cc
