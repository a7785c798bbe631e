-- ===== src/Tun/Examples.antt =====
-- Settings and routes, and the theorems at them.
use fortivpn_go.Prelude.{
  ℕ, ◌+◌, ◌≡◌, refl, ◌⊎◌, true, false, none, some, List, [], ◌∷◌, arith, length, err, ok, ℤ, pos,
  Text, codes,
}
use fortivpn_go.Netip.{unset, v4, zero_prefix, AddrText}
use fortivpn_go.Network.{Route}
use fortivpn_go.Tun.{TunConfig, System}
use fortivpn_go.Tun.Framing.{ip_version, frame_packet, read_utun, read_utun-frame_packet}
use fortivpn_go.Tun.Ifconfig.{netmask}
use fortivpn_go.Tun.Routes.{
  linux, bad_destination, bad_route, contains_route, route_args, new_route_spec, remove_routes,
  install_routes, configure_routes,
}
use fortivpn_go.Tun.Routes.Outcomes.{HasRun, IsCleaned, configure_routes-HasRun}

abbrev demo : AddrText
demo = record {
  parse_addr = λ t. none;
  parse_prefix = λ t. none;
  addr_string = λ a. codes "10.0.0.1";
  prefix_string = λ p. codes "10.1.0.0/16";
}

abbrev number : ℤ → Text
number n = codes "1400"

-- Every command succeeds.
abbrev working : System
working ran c = true

abbrev settings : TunConfig
settings = record {
  ipv4 =
      some
        (record { address = record { addr = v4 0x0a000005; bits_plus_one = 33 }; gateway = unset });
  ipv6 = none;
  mtu = pos 1400;
}

abbrev usable : Route
usable = record {
  destination = record { addr = v4 0x0a010000; bits_plus_one = 17 };
  gateway = unset;
}

abbrev unusable : Route
unusable = record { destination = zero_prefix; gateway = unset }

configure_routes-HasRun_example :
    let m = configure_routes linux working demo (codes "tun0") (usable ∷ []) [] in
    HasRun linux working demo m × IsCleaned linux working demo m
configure_routes-HasRun_example =
    configure_routes-HasRun linux working demo (codes "tun0") (usable ∷ []) []

-- A route that cannot be used stops the loop with the one before it still installed.
left_installed : configure_routes linux working demo (codes "tun0") (usable ∷ unusable ∷ []) [] ≡ (
  err (bad_route bad_destination),
  route_args linux
        (codes "add")
        (record { destination = codes "10.1.0.0/16"; ipv6 = false; device = codes "tun0" })
      ∷ [],
)
unfolding configure_routes install_routes new_route_spec contains_route remove_routes
left_installed = refl

abbrev packet : List ℕ
packet = 0x45 ∷ 1 ∷ 2 ∷ []

framed_packet : frame_packet packet ≡ some (0 ∷ 0 ∷ 0 ∷ 2 ∷ packet)
unfolding frame_packet ip_version
framed_packet = refl

read_utun-frame_packet_example :
    (read_utun 1500 (some (0 ∷ 0 ∷ 0 ∷ 2 ∷ packet)) ≡ ok packet)
    × (length (0 ∷ 0 ∷ 0 ∷ 2 ∷ packet) ≡ 4 + length packet)
    × ((ip_version packet ≡ 4) ⊎ (ip_version packet ≡ 6))
read_utun-frame_packet_example =
    read_utun-frame_packet 1500 packet (0 ∷ 0 ∷ 0 ∷ 2 ∷ packet) framed_packet (omega arith)

netmask_20 : netmask 20 ≡ 0xfffff000
unfolding netmask
netmask_20 = refl
