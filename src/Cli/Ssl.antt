-- ===== src/Cli/Ssl.antt =====
-- cmd/fortivpn/main.go: the options of an SSL-VPN session, which `run` (for inspect),
-- `runTunnelProbe` and `runTunnelConnect` choose from the arguments and the file in the same way.
pub mod Chosen
mod Examples
use fortivpn_go.Prelude.{
  ℕ, ◌-◌, ◌*◌, ◌^◌, Bool, true, false, not, ◌||◌, Option, none, some, List, [], ◌∷◌, if◌then◌else◌,
  Result, err, ok, ℤ, pos, is_above, is_zero, Text, codes, is_empty, has_prefix,
}
use fortivpn_go.Network.{IpMode, auto}
use fortivpn_go.Config.{Config}
use fortivpn_go.Cli.{CliError, flag, default_string, parse_ip_mode}
use fortivpn_go.Cli.Passwords.{PasswordError, Terminal, Stdin, login_password}

-- What the package flag gives: the flags that were set, and the other arguments.
pub record Flags : Type 0 where
  pub port : Option ℤ
  pub realm : Option Text
  pub saml : Option Bool
  pub username : Option Text
  pub password : Option Text
  pub password_stdin : Bool
  pub insecure : Option Bool
  pub debug : Bool
  pub ip_mode : Option Text
  pub browser : Option Text
  pub timeout : Option ℤ
  pub positional : List Text

-- What goes into `sslvpn.Options` and its authenticator.
pub record SslOptions : Type 0 where
  pub gateway : Text
  pub port : ℤ
  pub insecure : Bool
  pub saml : Bool
  pub realm : Text
  pub username : Text
  pub password : List ℕ
  pub browser : Text
  pub ip_mode : IpMode
  pub timeout : ℤ
  pub debug : Bool

pub data SslError : Type 0 where
  bad_flag gateway_missing bad_timeout bad_mode : SslError
  no_login : PasswordError → SslError

-- A flag that is not set has its default.
abbrev pub set_or : {A : Type 0} → Option A → A → A
set_or none default = default
set_or (some v) default = v

-- `defaultDuration`
abbrev pub default_duration : ℤ → ℤ → ℤ
default_duration value fallback = if is_zero value then fallback else value

-- Five minutes, in nanoseconds.
abbrev pub default_timeout : ℤ
default_timeout = pos (300 * 10 ^ 9)

-- The gateway in front of the options, and what the flags are read from.
unfoldable pub leading : List Text → Text × List Text
leading [] = ([], [])
leading (a ∷ args) = if has_prefix (codes "-") a then ([], a ∷ args) else (a, args)

abbrev pub only : List Text → Text
only (a ∷ []) = a
only args = []

-- The gateway from in front, from behind, or from the file.
unfoldable pub choose_gateway : Text → List Text → Config → Text
choose_gateway first positional file =
    default_string (default_string first (only positional)) file.gateway

-- With `--password-stdin` the file's password does not count.
unfoldable pub choose_password : Flags → Config → Text
choose_password flags file =
    set_or flags.password (if flags.password_stdin then [] else file.password)

abbrev pub is_several : List Text → Bool
is_several (a ∷ b ∷ args) = true
is_several args = false

abbrev pub is_positive : ℤ → Bool
is_positive n = is_above n 0

abbrev pub finished_options : SslOptions → Result CliError IpMode → Result SslError SslOptions
finished_options o (err e) = err bad_mode
finished_options o (ok mode) = ok (record o { ip_mode = mode })

-- What comes after the password.
abbrev pub with_password :
    SslOptions → Text → Option (Result PasswordError (List ℕ)) → Option (Result SslError SslOptions)
with_password o mode none = none
with_password o mode (some (err e)) = some (err (no_login e))
with_password o mode (some (ok p)) = some (
    if not (is_positive o.timeout)
    then err bad_timeout
    else finished_options (record o { password = p }) (parse_ip_mode mode))

-- The options before the password and the mode.
abbrev pub given_options : Text → Flags → Config → SslOptions
given_options gateway flags file = record {
  gateway = gateway;
  port = set_or flags.port file.port;
  insecure = set_or flags.insecure file.insecure;
  saml = set_or flags.saml file.saml;
  realm = set_or flags.realm file.realm;
  username = set_or flags.username file.username;
  password = [];
  browser = set_or flags.browser (default_string file.browser (codes "chrome"));
  ip_mode = auto;
  timeout = set_or flags.timeout (default_duration file.timeout default_timeout);
  debug = flags.debug;
}

module _ (terminal : Terminal) (input : Stdin) where
  unfoldable pub with_flags : Config → Text → Flags → Option (Result SslError SslOptions)
  unfolding login_password parse_ip_mode choose_gateway choose_password
  with_flags file first flags =
      let gateway = choose_gateway first flags.positional file in
      let o = given_options gateway flags file in
      if is_empty gateway || is_several flags.positional
      then some (err gateway_missing)
      else with_password o (set_or flags.ip_mode (default_string file.ip_mode (codes "auto"))) (
          login_password terminal input o.saml o.username (choose_password flags file)
            flags.password_stdin)

  abbrev pub after_parse : Config → Text → Option Flags → Option (Result SslError SslOptions)
  after_parse file first none = some (err bad_flag)
  after_parse file first (some flags) = with_flags file first flags

  -- `run` for inspect; none while the terminal waits
  unfoldable pub inspect_options :
      Config → (List Text → Option Flags) → List Text → Option (Result SslError SslOptions)
  unfolding leading with_flags
  inspect_options file parse args = after_parse file (leading args).0 (parse (leading args).1)

  -- `runTunnelProbe`
  unfoldable pub probe_options :
      Config → (List Text → Option Flags) → List Text → Option (Result SslError SslOptions)
  unfolding leading with_flags
  probe_options file parse args = after_parse file (leading args).0 (parse (leading args).1)

  -- `runTunnelConnect`
  unfoldable pub tunnel_connect_options :
      Config → (List Text → Option Flags) → List Text → Option (Result SslError SslOptions)
  unfolding leading with_flags
  tunnel_connect_options file parse args =
      after_parse file (leading args).0 (parse (leading args).1)
