-- ===== src/Tun/Ifconfig.antt =====
-- `Configure` of internal/tun/utun_darwin.go: the commands for ifconfig.
use fortivpn_go.Prelude.{
  ℕ, ◌-◌, ◌*◌, ◌/◌, ◌%◌, ◌^◌, ◌&&◌, Option, none, some, List, [], ◌∷◌, ◌++◌, ◌==◌, if◌then◌else◌,
  ok, ℤ, pos, is_above, Text, codes,
}
use fortivpn_go.Netip.{Addr, addr_is_valid, AddrText}
use fortivpn_go.Network.{IpConfig, is_nil}
use fortivpn_go.Tun.{
  TunConfig, validate_config, Argv, System, Ran, then_run, after_valid, run_command,
}

-- `^uint32(0) << (32 - bits)`, for at most 32 bits
unfoldable pub netmask : ℕ → ℕ
netmask bits = (2 ^ 32 - 1) * 2 ^ (32 - bits) % 2 ^ 32

module _ (system : System) (net : AddrText) (number : ℤ → Text) (name : Text) where
  abbrev pub octet : ℕ → ℕ → Text
  octet mask k = number (pos (mask / 2 ^ k % 256))

  -- `ipv4Netmask`
  unfoldable pub ipv4_netmask : ℕ → Text
  unfolding netmask
  ipv4_netmask bits =
      if bits == 0
      then codes "0.0.0.0"
      else (octet (netmask bits) 24
          ++ codes "."
          ++ octet (netmask bits) 16
          ++ codes "."
          ++ octet (netmask bits) 8
          ++ codes "."
          ++ octet (netmask bits) 0)

  abbrev pub peer_of : IpConfig → Addr
  peer_of ip = if addr_is_valid ip.gateway then ip.gateway else ip.address.addr

  -- `utun.ifconfig`
  abbrev pub ifconfig : Argv → List Argv → Ran
  ifconfig args ran = run_command system net number name (name ∷ args) ran

  -- `configureIPv4`, where there is an address; a valid prefix keeps its length plus one.
  unfoldable pub configure_ipv4 : Option IpConfig → List Argv → Ran
  unfolding ipv4_netmask run_command
  configure_ipv4 none ran = (ok tt, ran)
  configure_ipv4 (some ip) ran =
      ifconfig
        (codes "inet"
          ∷ net.addr_string ip.address.addr
          ∷ net.addr_string (peer_of ip)
          ∷ codes "netmask"
          ∷ ipv4_netmask (ip.address.bits_plus_one - 1)
          ∷ codes "up"
          ∷ [])
        ran

  abbrev pub configure_ipv6 : Option IpConfig → List Argv → Ran
  configure_ipv6 none ran = (ok tt, ran)
  configure_ipv6 (some ip) ran =
      ifconfig (codes "inet6" ∷ net.prefix_string ip.address ∷ codes "up" ∷ []) ran

  abbrev pub configure_utun_mtu : ℤ → List Argv → Ran
  configure_utun_mtu mtu ran =
      if is_above mtu 0 then ifconfig (codes "mtu" ∷ number mtu ∷ []) ran else (ok tt, ran)

  abbrev pub bring_up : TunConfig → List Argv → Ran
  bring_up c ran =
      if is_nil c.ipv4 && is_nil c.ipv6 then ifconfig (codes "up" ∷ []) ran else (ok tt, ran)

  -- `utun.Configure`
  unfoldable pub configure_utun : TunConfig → Ran
  unfolding configure_ipv4 run_command validate_config
  configure_utun c = after_valid (validate_config c) (
      then_run (configure_utun_mtu c.mtu []) (λ ran1.
        then_run (configure_ipv4 c.ipv4 ran1)
          (λ ran2. then_run (configure_ipv6 c.ipv6 ran2) (bring_up c))))

  -- The commands of each part of the settings, as they are meant: the interface's name first.
  abbrev pub inet_command : Option IpConfig → List Argv
  inet_command none = []
  inet_command (some ip) =
      (name
        ∷ codes "inet"
        ∷ net.addr_string ip.address.addr
        ∷ net.addr_string (if addr_is_valid ip.gateway then ip.gateway else ip.address.addr)
        ∷ codes "netmask"
        ∷ ipv4_netmask (ip.address.bits_plus_one - 1)
        ∷ codes "up"
        ∷ [])
      ∷ []

  abbrev pub inet6_command : Option IpConfig → List Argv
  inet6_command none = []
  inet6_command (some ip) =
      (name ∷ codes "inet6" ∷ net.prefix_string ip.address ∷ codes "up" ∷ []) ∷ []

  abbrev pub name_mtu_command : ℤ → List Argv
  name_mtu_command mtu = if is_above mtu 0 then (name ∷ codes "mtu" ∷ number mtu ∷ []) ∷ [] else []

  abbrev pub up_command : Option IpConfig → Option IpConfig → List Argv
  up_command none none = (name ∷ codes "up" ∷ []) ∷ []
  up_command four six = []

  abbrev pub utun_commands : TunConfig → List Argv
  utun_commands c =
      name_mtu_command c.mtu
      ++ (inet_command c.ipv4 ++ (inet6_command c.ipv6 ++ up_command c.ipv4 c.ipv6))
