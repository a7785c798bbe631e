-- ===== src/Network/Examples.antt =====
-- Runs of `ForIPMode`, and its theorems at a dual-stack allocation.
use fortivpn_go.Prelude.{◌≡◌, refl, none, some, [], ◌∷◌, ok, pos}
use fortivpn_go.Netip.{v4, v6, unset, prefix_from}
use fortivpn_go.Network.{Config, ipv4, for_ip_mode, filter_addrs}
use fortivpn_go.Network.Modes.{Selects, for_ip_mode-Selects, for_ip_mode_idem}

abbrev allocation : Config
allocation = record {
  ipv4_config = some (record { address = prefix_from (v4 167772165) (pos 32); gateway = unset });
  ipv6_config = some (record { address = prefix_from (v6 5 []) (pos 128); gateway = unset });
  dns = v4 16843009 ∷ v6 17 [] ∷ [];
  domains = [];
  routes4 = [];
  routes6 = record { destination = prefix_from (v6 0 []) (pos 0); gateway = unset } ∷ [];
  mtu = pos 1400;
  tunnel_methods = [];
}

abbrev only_v4 : Config
only_v4 = record allocation { ipv6_config = none; routes6 = []; dns = v4 16843009 ∷ [] }

selected : for_ip_mode (some allocation) ipv4 ≡ ok only_v4
unfolding for_ip_mode filter_addrs
selected = refl

for_ip_mode-Selects_example : Selects ipv4 allocation only_v4
for_ip_mode-Selects_example = for_ip_mode-Selects ipv4 allocation only_v4 selected

for_ip_mode_idem_example : for_ip_mode (some only_v4) ipv4 ≡ ok only_v4
for_ip_mode_idem_example = for_ip_mode_idem ipv4 allocation only_v4 selected
