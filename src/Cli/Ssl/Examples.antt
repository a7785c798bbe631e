-- ===== src/Cli/Ssl/Examples.antt =====
-- Arguments of the SSL-VPN commands, and the theorem at them.
use fortivpn_go.Prelude.{
  ◌*◌, ◌^◌, ◌≡◌, refl, true, false, Option, none, some, List, [], ◌∷◌, ◌++◌, ok, pos, Text, codes,
  text_eq, trim_space, to_lower, has_prefix,
}
use fortivpn_go.Network.{ipv4}
use fortivpn_go.Config.{Config}
use fortivpn_go.Cli.{parse_ip_mode}
use fortivpn_go.Cli.Inputs.{password_for_authentication}
use fortivpn_go.Cli.Passwords.{Terminal, Stdin, read_password, login_password}
use fortivpn_go.Cli.Ssl.{
  Flags, SslOptions, leading, choose_gateway, choose_password, with_flags, inspect_options,
}
use fortivpn_go.Cli.Ssl.Chosen.{inspect, IsSslChosen, options_of-IsSslChosen}

abbrev file : Config
file = record {
  gateway = codes "vpn.example.test";
  port = pos 10443;
  realm = [];
  username = codes "bob";
  password = codes "old";
  psk = [];
  saml = false;
  ip_mode = codes "ipv4";
  browser = [];
  timeout = pos 0;
  insecure = false;
  protocol = [];
  remote_id = [];
  transport = [];
  tcp_port = pos 0;
  socket = [];
}

-- `--password-stdin`, and what stands behind the flags.
abbrev flags : List Text → Flags
flags rest = record {
  port = none;
  realm = none;
  saml = none;
  username = none;
  password = none;
  password_stdin = true;
  insecure = none;
  debug = false;
  ip_mode = none;
  browser = none;
  timeout = none;
  positional = rest;
}

abbrev no_terminal : Terminal
no_terminal = record { is_terminal = false; makes_raw = false; restores = false; reads = [] }

abbrev input : Stdin
input = record { bytes = codes "new" ++ (10 ∷ []); fails = false }

abbrev chosen : Text → SslOptions
chosen gateway = record {
  gateway = gateway;
  port = pos 10443;
  insecure = false;
  saml = false;
  realm = [];
  username = codes "bob";
  password = codes "new";
  browser = codes "chrome";
  ip_mode = ipv4;
  timeout = pos (300 * 10 ^ 9);
  debug = false;
}

abbrev parse : List Text → Option Flags
parse args = some (flags [])

chosen-file :
    inspect_options no_terminal input file parse (codes "--password-stdin" ∷ [])
    ≡ some (ok (chosen (codes "vpn.example.test")))
unfolding inspect_options leading with_flags login_password read_password
    password_for_authentication parse_ip_mode choose_gateway choose_password has_prefix to_lower
    trim_space text_eq
chosen-file = refl

-- A stray argument behind the flags is not refused, where the gateway stands in front of them.
stray_argument :
    inspect_options no_terminal input file
      (λ args. some (flags (codes "stray" ∷ [])))
      (codes "a.test" ∷ codes "--password-stdin" ∷ codes "stray" ∷ [])
    ≡ some (ok (chosen (codes "a.test")))
unfolding inspect_options leading with_flags login_password read_password
    password_for_authentication parse_ip_mode choose_gateway choose_password has_prefix to_lower
    trim_space text_eq
stray_argument = refl

abbrev plain : List Text
plain = codes "--password-stdin" ∷ []

options_of-IsSslChosen_example :
    (f : Flags) × (parse (leading plain).1 ≡ some f)
    × IsSslChosen file (leading plain).0 f (chosen (codes "vpn.example.test"))
options_of-IsSslChosen_example =
    options_of-IsSslChosen no_terminal input file (chosen (codes "vpn.example.test")) inspect parse
      plain chosen-file
