-- ===== src/Tun.antt =====
-- internal/tun: the interface's settings, and the commands that apply them on Linux and macOS.
pub mod Framing
pub mod Routes
pub mod Applied
pub mod Ifconfig
mod Examples
use fortivpn_go.Prelude.{
  Bool, true, false, not, ◌||◌, Option, none, some, List, [], ◌∷◌, ◌++◌, if◌then◌else◌, Result, err,
  ok, reject, ◌>>=◌, ◌>>◌, ℤ, is_below, is_above, Text, codes,
}
use fortivpn_go.Netip.{Addr, addr_is_valid, is4, is6, prefix_is_valid, AddrText}
use fortivpn_go.Network.{IpConfig}

-- `Config` of tun.go.
pub record TunConfig : Type 0 where
  pub ipv4 : Option IpConfig
  pub ipv6 : Option IpConfig
  pub mtu : ℤ

pub data TunError : Type 0 where
  bad_mtu bad_ipv4 bad_ipv6 command_failed : TunError

-- An address whose prefix is valid and of the family; none is allowed.
abbrev pub is_wrong : (Addr → Bool) → Option IpConfig → Bool
is_wrong family none = false
is_wrong family (some ip) = not (prefix_is_valid ip.address) || not (family ip.address.addr)

unfoldable pub validate_config : TunConfig → Result TunError (Unit {0})
validate_config c = do
  reject (is_below c.mtu 0 || is_above c.mtu 65535) bad_mtu
  reject (is_wrong is4 c.ipv4) bad_ipv4
  reject (is_wrong is6 c.ipv6) bad_ipv6

-- The arguments of a command, and whether it succeeds after those that ran before it. `number`
-- is `fmt.Sprint` on an int.
abbrev pub Argv : Type 0
Argv = List Text

abbrev pub System : Type 0
System = List Argv → Argv → Bool

-- Commands are kept in the order in which they ran.
abbrev pub Ran : Type 0
Ran = Result TunError (Unit {0}) × List Argv

-- The next step, unless a command failed.
abbrev pub then_run : Ran → (List Argv → Ran) → Ran
then_run (ok u, ran) next = next ran
then_run (err e, ran) next = (err e, ran)

abbrev pub after_valid : Result TunError (Unit {0}) → Ran → Ran
after_valid (ok _) r = r
after_valid (err e) r = (err e, [])

module _ (system : System) (net : AddrText) (number : ℤ → Text) (name : Text) where
  -- `linuxTun.ip`, and `utun.ifconfig` after the name of the interface
  unfoldable pub run_command : Argv → List Argv → Ran
  run_command args ran =
      if system ran args
      then (ok tt, ran ++ (args ∷ []))
      else (err command_failed, ran ++ (args ∷ []))

  -- `linuxAddressArgs`
  unfoldable pub linux_address_args : IpConfig → Bool → Argv
  linux_address_args ip six =
      let args = codes "address" ∷ codes "add" ∷ net.prefix_string ip.address ∷ [] in
      let peer =
        if addr_is_valid ip.gateway then codes "peer" ∷ net.addr_string ip.gateway ∷ [] else [] in
      (if six then codes "-6" else codes "-4") ∷ (args ++ (peer ++ (codes "dev" ∷ name ∷ [])))

  abbrev pub configure_mtu : ℤ → List Argv → Ran
  configure_mtu mtu ran =
      if is_above mtu 0
      then run_command
          (codes "link" ∷ codes "set" ∷ codes "dev" ∷ name ∷ codes "mtu" ∷ number mtu ∷ []) ran
      else (ok tt, ran)

  -- `configureAddress`, where there is an address
  abbrev pub configure_address : Option IpConfig → Bool → List Argv → Ran
  configure_address none six ran = (ok tt, ran)
  configure_address (some ip) six ran = run_command (linux_address_args ip six) ran

  -- `linuxTun.Configure`
  unfoldable pub configure : TunConfig → Ran
  unfolding run_command linux_address_args validate_config
  configure c = after_valid (validate_config c) (
      then_run (configure_mtu c.mtu []) (λ ran1.
        then_run (configure_address c.ipv4 false ran1) (λ ran2.
          then_run (configure_address c.ipv6 true ran2)
            (run_command (codes "link" ∷ codes "set" ∷ codes "dev" ∷ name ∷ codes "up" ∷ [])))))
