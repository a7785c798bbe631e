-- ===== src/Cli/Ssl/Chosen.antt =====
-- The options that the SSL-VPN commands of cmd/fortivpn/main.go choose.
use mathlib.Core.Path.{subst}
use fortivpn_go.Prelude.{
  ℕ, ◌≤◌, ◌≡◌, refl, Bool, true, false, not, ◌||◌, Option, none, some, List, [], ◌∷◌, arith,
  if◌then◌else◌, length, Result, err, ok, ok-injective, Text, codes, is_empty,
}
use fortivpn_go.Network.{IpMode}
use fortivpn_go.Config.{Config}
use fortivpn_go.Cli.{CliError, default_string, parse_ip_mode}
use fortivpn_go.Cli.Passwords.{PasswordError, Terminal, Stdin, login_password}
use fortivpn_go.Cli.Passwords.Login.{HasPassword, login_password-HasPassword}
use fortivpn_go.Cli.Ssl.{
  Flags, SslOptions, SslError, bad_flag, gateway_missing, bad_timeout, no_login, set_or, leading,
  choose_gateway, choose_password, is_several, is_positive, finished_options, with_password,
  given_options, with_flags, after_parse, inspect_options, probe_options, tunnel_connect_options,
}

pub data SslCommand : Type 0 where
  inspect probe tunnel_connect : SslCommand

abbrev pub options_of :
    SslCommand
    → Terminal
    → Stdin
    → Config
    → (List Text → Option Flags)
    → List Text
    → Option (Result SslError SslOptions)
options_of inspect = inspect_options
options_of probe = probe_options
options_of tunnel_connect = tunnel_connect_options

-- The argument in front counts before the one behind, and that before the file.
abbrev pub GatewayFrom : Text → List Text → Text → Text → Type 0
GatewayFrom (c ∷ s) positional file gateway = gateway ≡ c ∷ s
GatewayFrom [] [] file gateway = gateway ≡ file
GatewayFrom [] ([] ∷ args) file gateway = gateway ≡ file
GatewayFrom [] ((c ∷ s) ∷ args) file gateway = gateway ≡ c ∷ s

pub record IsSslChosen (file : Config) (first : Text) (flags : Flags) (o : SslOptions)
    : Type 0 where
  pub gateway : is_empty o.gateway ≡ false
  pub origin : GatewayFrom first flags.positional file.gateway o.gateway
  pub one_argument : length flags.positional ≤ 1
  pub port : o.port ≡ set_or flags.port file.port
  pub insecure : o.insecure ≡ set_or flags.insecure file.insecure
  pub saml : o.saml ≡ set_or flags.saml file.saml
  pub realm : o.realm ≡ set_or flags.realm file.realm
  pub username : o.username ≡ set_or flags.username file.username
  -- The flag's password, or the file's unless it is read from standard input.
  pub password :
      HasPassword o.saml o.username
        (set_or flags.password (if flags.password_stdin then [] else file.password))
        flags.password_stdin
        o.password
  pub timeout : is_positive o.timeout ≡ true
  pub ip_mode :
      parse_ip_mode (set_or flags.ip_mode (default_string file.ip_mode (codes "auto")))
      ≡ ok o.ip_mode

choose_gateway-GatewayFrom :
    (first : Text) (positional : List Text) (file : Config)
    → is_several positional ≡ false
    → GatewayFrom first positional file.gateway (choose_gateway first positional file)
unfolding choose_gateway
choose_gateway-GatewayFrom (c ∷ s) positional file h = refl
choose_gateway-GatewayFrom [] [] file h = refl
choose_gateway-GatewayFrom [] ([] ∷ []) file h = refl
choose_gateway-GatewayFrom [] ((c ∷ s) ∷ []) file h = refl
choose_gateway-GatewayFrom [] (a ∷ b ∷ args) file h = cc

is_several-length : (positional : List Text) → is_several positional ≡ false → length positional ≤ 1
is_several-length [] h = omega arith
is_several-length (a ∷ []) h = omega arith
is_several-length (a ∷ b ∷ args) h = cc

given_back : (a b : Result SslError SslOptions) → some a ≡ some b → a ≡ b
given_back a b h = cc

module _ (t : Terminal) (input : Stdin) (file : Config) (first : Text) (flags : Flags)
    (o : SslOptions) where
  abbrev gateway_text : Text
  gateway_text = choose_gateway first flags.positional file

  abbrev before : SslOptions
  before = given_options gateway_text flags file

  abbrev mode_text : Text
  mode_text = set_or flags.ip_mode (default_string file.ip_mode (codes "auto"))

  finished-IsSslChosen :
      (p : List ℕ) (r : Result CliError IpMode)
      → is_empty gateway_text ≡ false
      → is_several flags.positional ≡ false
      → is_positive before.timeout ≡ true
      → HasPassword before.saml before.username (choose_password flags file) flags.password_stdin p
      → parse_ip_mode mode_text ≡ r
      → finished_options (record before { password = p }) r ≡ ok o
      → IsSslChosen file first flags o
  unfolding choose_password
  finished-IsSslChosen p (err e) g n k h m q = cc
  finished-IsSslChosen p (ok x) g n k h m q =
      subst (IsSslChosen file first flags)
        (ok-injective (record before { password = p; ip_mode = x }) o q)
        (record {
          gateway = g;
          origin = choose_gateway-GatewayFrom first flags.positional file n;
          one_argument = is_several-length flags.positional n;
          port = refl;
          insecure = refl;
          saml = refl;
          realm = refl;
          username = refl;
          password = h;
          timeout = k;
          ip_mode = m;
        })

  past_timeout :
      (b : Bool) (r : Result SslError SslOptions)
      → (if not b then err bad_timeout else r) ≡ ok o
      → (b ≡ true) × (r ≡ ok o)
  past_timeout true r h = (refl, h)
  past_timeout false r h = cc

  with_password-IsSslChosen :
      (r : Option (Result PasswordError (List ℕ)))
      → is_empty gateway_text ≡ false
      → is_several flags.positional ≡ false
      → login_password t input before.saml before.username
          (choose_password flags file)
          flags.password_stdin
        ≡ r
      → with_password before mode_text r ≡ some (ok o)
      → IsSslChosen file first flags o
  with_password-IsSslChosen none g n l h = cc
  with_password-IsSslChosen (some (err e)) g n l h =
      let m = given_back (err (no_login e)) (ok o) h in cc
  with_password-IsSslChosen (some (ok p)) g n l h =
      let (k, q) =
        past_timeout (is_positive before.timeout)
          (finished_options (record before { password = p }) (parse_ip_mode mode_text))
          (given_back _ (ok o) h) in
      finished-IsSslChosen p (parse_ip_mode mode_text) g n k
        (login_password-HasPassword t input before.saml before.username (choose_password flags file)
          flags.password_stdin p l)
        refl q

  past_gateway :
      (a b : Bool) (r : Option (Result SslError SslOptions))
      → (if a || b then some (err gateway_missing) else r) ≡ some (ok o)
      → (a ≡ false) × (b ≡ false) × (r ≡ some (ok o))
  past_gateway false false r h = (refl, refl, h)
  past_gateway true b r h = let m = given_back (err gateway_missing) (ok o) h in cc
  past_gateway false true r h = let m = given_back (err gateway_missing) (ok o) h in cc

  with_flags-IsSslChosen :
      with_flags t input file first flags ≡ some (ok o) → IsSslChosen file first flags o
  unfolding with_flags
  with_flags-IsSslChosen h =
      let (a, b, k) = past_gateway (is_empty gateway_text) (is_several flags.positional) _ h in
      with_password-IsSslChosen _ a b refl k

module _ (t : Terminal) (input : Stdin) (file : Config) (o : SslOptions) where
  after_parse-IsSslChosen :
      (first : Text) (r : Option Flags)
      → after_parse t input file first r ≡ some (ok o)
      → (flags : Flags) × (r ≡ some flags) × IsSslChosen file first flags o
  after_parse-IsSslChosen first none h = let m = given_back (err bad_flag) (ok o) h in cc
  after_parse-IsSslChosen first (some flags) h =
      (flags, refl, with_flags-IsSslChosen t input file first flags o h)

  -- For inspect, tunnel probe and tunnel connect alike: when there are options, the gateway is the
  -- argument in front of the flags, or else the one behind them, or else the file's, it is not
  -- empty, and at most one argument stands behind the flags. A flag that is set counts before the
  -- file. The password is one that `passwordForAuthentication` gives for the flag's password, or
  -- for the file's, which does not count with `--password-stdin`. The timeout is positive, and the
  -- mode is the one that is read from the flag, or else from the file, or else auto.
  pub options_of-IsSslChosen :
      (command : SslCommand) (parse : List Text → Option Flags) (args : List Text)
      → options_of command t input file parse args ≡ some (ok o)
      → (flags : Flags) × (parse (leading args).1 ≡ some flags)
        × IsSslChosen file (leading args).0 flags o
  unfolding inspect_options probe_options tunnel_connect_options
  options_of-IsSslChosen inspect parse args h = after_parse-IsSslChosen (leading args).0 _ h
  options_of-IsSslChosen probe parse args h = after_parse-IsSslChosen (leading args).0 _ h
  options_of-IsSslChosen tunnel_connect parse args h = after_parse-IsSslChosen (leading args).0 _ h
