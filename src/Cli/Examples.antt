-- ===== src/Cli/Examples.antt =====
-- Command lines of `fortivpn connect`, and the theorems at them.
use fortivpn_go.Prelude.{◌≡◌, refl, false, none, some, [], ◌∷◌, ok, pos, codes, text_eq, cut_prefix}
use fortivpn_go.Netip.{v4, Prefix, AddrText}
use fortivpn_go.Tun.{TunConfig, validate_config}
use fortivpn_go.Cli.{
  Args, kind, option_value_from, option_value, without_option, Action, run_tunnel, Environment,
  backend_args, parse_ip_mode,
}
use fortivpn_go.Cli.Inputs.{
  parse_ip_config, tun_config, from_terminal, password_for_authentication, parse_ipsec_mode,
}
use fortivpn_go.Cli.Modes.{for_ipsec, parse_ipsec_mode-for_ipsec}

abbrev home : Environment
home = record {
  fortivpn_config = [];
  home_config = some (codes "/h/c.yaml");
  load = λ path selector. some [];
}

abbrev given : Args
given = codes "--config=/etc/f.yaml" ∷ codes "--debug" ∷ codes "--config" ∷ codes "/x" ∷ []

without_given : without_option given (codes "config") ≡ ok (codes "--debug" ∷ [])
unfolding without_option kind text_eq cut_prefix
without_given = refl

abbrev connected : Action
connected = run_tunnel (backend_args (codes "/x") (codes "o/m") (codes "--debug" ∷ []))

-- A value for `--instance` that is empty is taken for none, and passed on behind the selector.
empty_instance :
    option_value
      (backend_args (codes "/x") (codes "o/m") (codes "--instance" ∷ [] ∷ []))
      (codes "instance")
    ≡ ok []
unfolding option_value option_value_from kind text_eq cut_prefix
empty_instance = refl

abbrev office : Prefix
office = record { addr = v4 0x0a000005; bits_plus_one = 33 }

-- Any text is the same prefix and the same address.
abbrev demo : AddrText
demo = record {
  parse_addr = λ t. some (v4 0x0a000001);
  parse_prefix = λ t. some office;
  addr_string = λ a. [];
  prefix_string = λ p. [];
}

abbrev created : TunConfig
created = record {
  ipv4 = some (record { address = office; gateway = v4 0x0a000001 });
  ipv6 = none;
  mtu = pos 1400;
}

config_created : tun_config demo (codes "10.0.0.5/32") (codes "10.0.0.1") [] (pos 1400) ≡ ok created
unfolding tun_config parse_ip_config validate_config
config_created = refl

parse_ipsec_mode-for_ipsec_example :
    parse_ipsec_mode (codes " Dual-Stack") ≡ for_ipsec (parse_ip_mode (codes " Dual-Stack"))
parse_ipsec_mode-for_ipsec_example = parse_ipsec_mode-for_ipsec (codes " Dual-Stack")

password_asked : password_for_authentication false (codes "bob") [] false ≡ ok from_terminal
unfolding password_for_authentication
password_asked = refl
