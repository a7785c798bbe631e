-- ===== src/Cli/TunCreate/Examples.antt =====
-- A run of `tun create` at which the interface refuses its settings, and the theorem at it.
use fortivpn_go.Prelude.{
  ◌≡◌, refl, true, false, none, List, [], ◌∷◌, err, pos, Text, codes, text_eq,
}
use fortivpn_go.Netip.{AddrText}
use fortivpn_go.Tun.{TunConfig, validate_config}
use fortivpn_go.Cli.Inputs.{tun_config, parse_ip_config}
use fortivpn_go.Cli.TunCreate.{
  Parsing, given, TunHost, device_created, device_closed, device_configured, not_configured,
  run_tun,
}
use fortivpn_go.Cli.TunCreate.Outcomes.{HasEnded, run_tun-HasEnded}

abbrev demo : AddrText
demo = record {
  parse_addr = λ raw. none;
  parse_prefix = λ raw. none;
  addr_string = λ a. [];
  prefix_string = λ p. [];
}

abbrev refusing : TunHost
refusing = record { creates = true; has_configurer = true; configures = λ c. false }

abbrev parse : List Text → Parsing
parse args =
    given (record { ipv4 = []; ipv4_gateway = []; ipv6 = []; mtu = pos 1400; positional = [] })

abbrev line : List Text
line = codes "create" ∷ codes "--mtu=1400" ∷ []

abbrev settings : TunConfig
settings = record { ipv4 = none; ipv6 = none; mtu = pos 1400 }

refused :
    run_tun demo refusing parse line
    ≡ (err not_configured, device_created ∷ device_configured settings ∷ device_closed ∷ [])
unfolding run_tun tun_config parse_ip_config validate_config text_eq
refused = refl

run_tun-HasEnded_example : HasEnded refusing parse line (run_tun demo refusing parse line)
run_tun-HasEnded_example = run_tun-HasEnded demo refusing parse line
