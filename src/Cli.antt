-- ===== src/Cli.antt =====
-- cmd/fortivpn: options that are read before the flags, and the dispatch of `connect`.
pub mod Options
pub mod Inputs
pub mod Passwords
pub mod Ssl
pub mod TunCreate
pub mod Modes
mod Examples
use fortivpn_go.Prelude.{
  ◌-◌, Bool, not, ◌||◌, Option, none, some, List, [], ◌∷◌, ◌++◌, if◌then◌else◌, Result, err, ok,
  reject, ◌>>=◌, ◌>>◌, Text, codes, is_empty, text_eq, trim_space, to_lower, cut_prefix, has_prefix,
}
use fortivpn_go.Network.{IpMode, auto, ipv4, ipv6, dual, Config}
use fortivpn_go.Config.{selector, parse_instance_selector}

pub data CliError : Type 0 where
  missing_value usage_error instance_twice no_home unsupported_protocol : CliError
  invalid_mode missing_username missing_gateway_prefix invalid_prefix invalid_gateway : CliError
  not_loaded bad_selector : CliError

abbrev pub Args : Type 0
Args = List Text

abbrev pub flag : Text → Text
flag name = codes "--" ++ name

-- `strings.CutPrefix(argument, "--"+name+"=")`
abbrev pub inline : Text → Text → Option Text
inline name argument = cut_prefix (flag name ++ codes "=") argument

-- What an argument is to the option: its name alone, with a value, or another argument.
pub data Kind : Type 0 where
  bare_name other_argument : Kind
  with_value : Text → Kind

abbrev pub inline_kind : Option Text → Kind
inline_kind none = other_argument
inline_kind (some v) = with_value v

unfoldable pub kind : Text → Text → Kind
kind name argument =
    if text_eq argument (flag name) then bare_name else inline_kind (inline name argument)

-- `optionValue`, from the value that was found before: the last one counts.
unfoldable pub option_value_from : Text → Text → Args → Result CliError Text
option_value_from name found [] = ok found
option_value_from name found (argument ∷ []) = elim (kind name argument) [
  | bare_name ↦ err missing_value
  | other_argument ↦ ok found
  | with_value v ↦ if is_empty v then err missing_value else ok v
]
option_value_from name found (argument ∷ value ∷ rest) =
    let skipped = option_value_from name found (value ∷ rest) in
    let taken = option_value_from name value rest in
    elim (kind name argument) [
      | bare_name ↦ taken
      | other_argument ↦ skipped
      | with_value v ↦
          if is_empty v then err missing_value else option_value_from name v (value ∷ rest)
    ]

unfoldable pub option_value : Args → Text → Result CliError Text
unfolding option_value_from
option_value args name = option_value_from name [] args

abbrev pub cons_ok : Text → Result CliError Args → Result CliError Args
cons_ok a (ok args) = ok (a ∷ args)
cons_ok a (err e) = err e

-- `withoutOption`
unfoldable pub without_option : Args → Text → Result CliError Args
without_option [] name = ok []
without_option (argument ∷ []) name = elim (kind name argument) [
  | bare_name ↦ err missing_value
  | other_argument ↦ ok (argument ∷ [])
  | with_value v ↦ ok []
]
without_option (argument ∷ value ∷ rest) name =
    let after = without_option rest name in
    let kept = without_option (value ∷ rest) name in
    elim (kind name argument) [
      | bare_name ↦ after
      | other_argument ↦ cons_ok argument kept
      | with_value v ↦ kept
    ]

-- `defaultString`
abbrev pub default_string : Text → Text → Text
default_string value fallback = if is_empty value then fallback else value

-- What `runConnect` goes on with.
pub data Action : Type 0 where
  print_usage : Action
  run_ipsec run_tunnel : Args → Action

-- What the process finds around it: FORTIVPN_CONFIG, the home directory with the path of the
-- configuration file below it, and the protocol of the instance that `Load` reads.
pub record Environment : Type 0 where
  pub fortivpn_config : Text
  pub home_config : Option Text
  pub load : Text → Text → Option Text

abbrev pub home_path : Option Text → Result CliError Text
home_path none = err no_home
home_path (some path) = ok path

-- `defaultConfigPath`
unfoldable pub default_config_path : Environment → Result CliError Text
default_config_path env =
    if is_empty env.fortivpn_config then home_path env.home_config else ok env.fortivpn_config

abbrev pub loaded : Option Text → Result CliError Text
loaded none = err not_loaded
loaded (some protocol) = ok protocol

abbrev pub check_selector : Text → Result CliError (Unit {0})
check_selector selector = elim (parse_instance_selector selector) [
  | ok x ↦ ok tt
  | err e ↦ err bad_selector
]

unfoldable pub dispatch : Text → Args → Result CliError Action
dispatch protocol args =
    if text_eq protocol (codes "ipsec")
    then ok (run_ipsec (codes "connect" ∷ args))
    else if text_eq protocol (codes "sslvpn")
    then ok (run_tunnel args)
    else err unsupported_protocol

abbrev pub backend_args : Text → Text → Args → Args
backend_args path selector forwarded =
    codes "--config" ∷ path ∷ codes "--instance" ∷ selector ∷ forwarded

abbrev pub is_help : Text → Bool
is_help a = text_eq a (codes "-h") || text_eq a (codes "--help")

unfoldable pub connect_instance : Environment → Text → Args → Result CliError Action
unfolding option_value without_option default_config_path dispatch
connect_instance env selector forwarded = do
  reject (has_prefix (codes "-") selector) usage_error
  check_selector selector
  instance_value ← option_value forwarded (codes "instance")
  reject (not (is_empty instance_value)) instance_twice
  given ← option_value forwarded (codes "config")
  path ← if is_empty given then default_config_path env else ok given
  protocol ← loaded (env.load path selector)
  kept ← without_option forwarded (codes "config")
  dispatch (default_string protocol (codes "sslvpn")) (backend_args path selector kept)

-- `runConnect`
unfoldable pub run_connect : Environment → Args → Result CliError Action
unfolding connect_instance
run_connect env [] = ok print_usage
run_connect env (selector ∷ forwarded) =
    if is_help selector then ok print_usage else connect_instance env selector forwarded

-- `parseIPMode`
unfoldable pub parse_ip_mode : Text → Result CliError IpMode
parse_ip_mode value =
    let v = to_lower (trim_space value) in
    if is_empty v || text_eq v (codes "auto")
    then ok auto
    else if text_eq v (codes "ipv4")
    then ok ipv4
    else if text_eq v (codes "ipv6")
    then ok ipv6
    else if text_eq v (codes "dual")
        || text_eq v (codes "dual-stack")
        || text_eq v (codes "dualstack")
    then ok dual
    else err invalid_mode
