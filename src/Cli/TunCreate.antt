-- ===== src/Cli/TunCreate.antt =====
-- cmd/fortivpn/main.go: runTun, which creates an interface, configures it, waits for a signal and
-- removes it.
pub mod Outcomes
mod Examples
use fortivpn_go.Prelude.{
  Bool, true, false, not, ◌||◌, List, [], ◌∷◌, if◌then◌else◌, Result, err, ok, ℤ, Text, codes,
  text_eq,
}
use fortivpn_go.Netip.{AddrText}
use fortivpn_go.Tun.{TunConfig}
use fortivpn_go.Cli.Inputs.{InputError, tun_config}

-- What the package flag gives for the options of `tun create`.
pub record TunFlags : Type 0 where
  pub ipv4 : Text
  pub ipv4_gateway : Text
  pub ipv6 : Text
  pub mtu : ℤ
  pub positional : List Text

pub data Parsing : Type 0 where
  help_asked bad_flags : Parsing
  given : TunFlags → Parsing

-- What the system answers.
pub record TunHost : Type 0 where
  pub creates : Bool
  pub has_configurer : Bool
  pub configures : TunConfig → Bool

pub data TunEffect : Type 0 where
  device_created waited device_closed : TunEffect
  device_configured : TunConfig → TunEffect

pub data RunTunError : Type 0 where
  tun_usage bad_tun_flags has_arguments not_created not_configurable not_configured : RunTunError
  bad_settings : InputError → RunTunError

abbrev pub asks_help : List Text → Bool
asks_help (a ∷ []) = text_eq a (codes "--help") || text_eq a (codes "-h")
asks_help args = false

abbrev pub no_arguments : List Text → Bool
no_arguments [] = true
no_arguments (a ∷ args) = false

-- The device is there; `defer device.Close()` runs at every return.
abbrev pub run_device : TunHost → TunConfig → Result RunTunError (Unit {0}) × List TunEffect
run_device host c =
    if not host.has_configurer
    then (err not_configurable, device_created ∷ device_closed ∷ [])
    else if not (host.configures c)
    then (err not_configured, device_created ∷ device_configured c ∷ device_closed ∷ [])
    else (ok tt, device_created ∷ device_configured c ∷ waited ∷ device_closed ∷ [])

abbrev pub create_with :
    TunHost → Result InputError TunConfig → Result RunTunError (Unit {0}) × List TunEffect
create_with host (err e) = (err (bad_settings e), [])
create_with host (ok c) = if host.creates then run_device host c else (err not_created, [])

abbrev pub create_device :
    (net : AddrText) → TunHost → Parsing → Result RunTunError (Unit {0}) × List TunEffect
create_device net host help_asked = (ok tt, [])
create_device net host bad_flags = (err bad_tun_flags, [])
create_device net host (given f) =
    if no_arguments f.positional
    then create_with host (tun_config net f.ipv4 f.ipv4_gateway f.ipv6 f.mtu)
    else (err has_arguments, [])

abbrev pub without_help :
    (net : AddrText)
    → TunHost
    → (List Text → Parsing)
    → List Text
    → Result RunTunError (Unit {0}) × List TunEffect
without_help net host parse [] = (err tun_usage, [])
without_help net host parse (a ∷ args) =
    if text_eq a (codes "create") then create_device net host (parse args) else (err tun_usage, [])

-- `runTun`
unfoldable pub run_tun :
    (net : AddrText)
    → TunHost
    → (List Text → Parsing)
    → List Text
    → Result RunTunError (Unit {0}) × List TunEffect
unfolding tun_config
run_tun net host parse args =
    if asks_help args then (ok tt, []) else without_help net host parse args
