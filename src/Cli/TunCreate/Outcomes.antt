-- ===== src/Cli/TunCreate/Outcomes.antt =====
-- How runTun of cmd/fortivpn/main.go leaves the interface.
use fortivpn_go.Prelude.{
  ◌≡◌, refl, Bool, true, false, not, ◌&&◌, List, [], ◌∷◌, if◌then◌else◌, Result, err, ok, is_zero,
  Text, codes, text_eq,
}
use fortivpn_go.Netip.{AddrText}
use fortivpn_go.Network.{is_nil}
use fortivpn_go.Tun.{TunConfig}
use fortivpn_go.Tun.Applied.{IsValidConfig}
use fortivpn_go.Cli.Inputs.{InputError, four, six, HasGatewayOf, tun_config-IsValidConfig}
use fortivpn_go.Cli.TunCreate.{
  Parsing, help_asked, bad_flags, given, TunHost, TunEffect, device_created, waited, device_closed,
  device_configured, RunTunError, tun_usage, bad_tun_flags, has_arguments, not_created,
  not_configurable, not_configured, bad_settings, asks_help, no_arguments, run_device, create_with,
  create_device, without_help, run_tun,
}

abbrev pub Run : Type 0
Run = Result RunTunError (Unit {0}) × List TunEffect

-- Settings that may reach an interface: valid, with a peer of the address's family, and not all
-- missing.
abbrev pub IsSettings : TunConfig → Type 0
IsSettings c =
    IsValidConfig c
    × HasGatewayOf four c.ipv4
    × HasGatewayOf six c.ipv6
    × ((is_nil c.ipv4 && is_nil c.ipv6 && is_zero c.mtu) ≡ false)

pub data HasEnded (host : TunHost) (parse : List Text → Parsing) (args : List Text)
    : Run → Type 0 where
  help_printed : (asks_help args ≡ true) → HasEnded host parse args (ok tt, [])
  help_found :
      (a : Text) (rest : List Text)
      → (args ≡ a ∷ rest)
      → (parse rest ≡ help_asked)
      → HasEnded host parse args (ok tt, [])
  refused_early : (e : RunTunError) → HasEnded host parse args (err e, [])
  without_configurer :
      (host.creates ≡ true)
      → (host.has_configurer ≡ false)
      → HasEnded host parse args (err not_configurable, device_created ∷ device_closed ∷ [])
  failed :
      (c : TunConfig)
      → (host.creates ≡ true)
      → IsSettings c
      → (host.configures c ≡ false)
      → HasEnded host parse args
          (err not_configured, device_created ∷ device_configured c ∷ device_closed ∷ [])
  finished :
      (c : TunConfig)
      → (host.creates ≡ true)
      → IsSettings c
      → (host.configures c ≡ true)
      → HasEnded host parse args
          (ok tt, device_created ∷ device_configured c ∷ waited ∷ device_closed ∷ [])

module _ (net : AddrText) (host : TunHost) (parse : List Text → Parsing) (args : List Text) where
  abbrev Ended : Run → Type 0
  Ended = HasEnded host parse args

  chosen :
      (b : Bool) (m n : Run)
      → (b ≡ true → Ended m)
      → (b ≡ false → Ended n)
      → Ended (if b then m else n)
  chosen true m n f g = f refl
  chosen false m n f g = g refl

  unless :
      (b : Bool) (m n : Run)
      → (b ≡ false → Ended m)
      → (b ≡ true → Ended n)
      → Ended (if not b then m else n)
  unless true m n f g = g refl
  unless false m n f g = f refl

  run_device-HasEnded :
      (c : TunConfig) → host.creates ≡ true → IsSettings c → Ended (run_device host c)
  run_device-HasEnded c h k =
      unless host.has_configurer _ _ (λ n. without_configurer h n)
        (λ y. unless (host.configures c) _ _ (λ n. failed c h k n) (λ g. finished c h k g))

  create_with-HasEnded :
      (r : Result InputError TunConfig)
      → ((c : TunConfig) → r ≡ ok c → IsSettings c)
      → Ended (create_with host r)
  create_with-HasEnded (err e) f = refused_early (bad_settings e)
  create_with-HasEnded (ok c) f =
      chosen host.creates _ _ (λ h. run_device-HasEnded c h (f c refl))
        (λ n. refused_early not_created)

  create_device-HasEnded :
      (a : Text) (rest : List Text) (p : Parsing)
      → args ≡ a ∷ rest
      → parse rest ≡ p
      → Ended (create_device net host p)
  create_device-HasEnded a rest help_asked q h = help_found a rest q h
  create_device-HasEnded a rest bad_flags q h = refused_early bad_tun_flags
  create_device-HasEnded a rest (given f) q h =
      chosen (no_arguments f.positional) _ _
        (λ e.
          create_with-HasEnded _
            (λ c. tun_config-IsValidConfig net f.ipv4 f.ipv4_gateway f.ipv6 f.mtu c))
        (λ n. refused_early has_arguments)

  without_help-HasEnded : (l : List Text) → args ≡ l → Ended (without_help net host parse l)
  without_help-HasEnded [] q = refused_early tun_usage
  without_help-HasEnded (a ∷ rest) q =
      chosen (text_eq a (codes "create")) _ _ (λ h. create_device-HasEnded a rest _ q refl)
        (λ n. refused_early tun_usage)

  -- Whatever the system answers, `tun create` ends in one of these ways: it does nothing to the
  -- system, and succeeds only when help was asked for; or it creates a device that cannot be
  -- configured, and closes it; or it configures the device it created once, with an MTU between 0
  -- and 65535, addresses and a peer of their families, and not all of them missing, and then closes
  -- the device, at once when that fails, or after the wait for a signal, when it succeeds.
  pub run_tun-HasEnded : HasEnded host parse args (run_tun net host parse args)
  unfolding run_tun
  run_tun-HasEnded =
      chosen (asks_help args) _ _ (λ h. help_printed h) (λ n. without_help-HasEnded args refl)
