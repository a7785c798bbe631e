-- ===== src/Cli/Modes.antt =====
-- cmd/fortivpn: the two readers of `--ip-mode`, and the choice of a password, compared with tables.
use fortivpn_go.Prelude.{
  ◌≡◌, refl, inl, inr, Bool, true, false, ◌&&◌, ◌||◌, arith, if◌then◌else◌, Bool-cases, Result, err,
  ok, Text, codes, is_empty, text_eq_iff,
}
use fortivpn_go.Prelude.{to_lower, trim_space, text_eq}
use fortivpn_go.Network.{IpMode, auto, ipv4, ipv6, dual}
use fortivpn_go.Cli.{CliError, invalid_mode, parse_ip_mode}
use fortivpn_go.Cli.Inputs.{
  InputError, invalid_ipsec_mode, PasswordSource, no_password, from_stdin, from_terminal, from_flag,
  password_for_authentication, parse_ipsec_mode,
}

-- What IPsec makes of a mode: it has no automatic choice, and no sessions of IPv6 alone.
abbrev pub for_ipsec : Result CliError IpMode → Result InputError IpMode
for_ipsec (ok auto) = ok ipv4
for_ipsec (ok ipv4) = ok ipv4
for_ipsec (ok dual) = ok dual
for_ipsec (ok m) = err invalid_ipsec_mode
for_ipsec (err e) = err invalid_ipsec_mode

-- The two readers, once the text is trimmed and in lower case.
cases_agree :
    (e a f s d x y : Bool)
    → (s && (e || a || f || d || x || y)) ≡ false
    → (if e || a || f then ok ipv4 else if d || x || y then ok dual else err invalid_ipsec_mode)
      ≡ for_ipsec (
          if e || a
          then ok auto
          else if f
          then ok ipv4
          else if s
          then ok ipv6
          else if d || x || y
          then ok dual
          else err invalid_mode)
cases_agree e a f s d x y h = ground arith

-- No other text of the two is `ipv6`.
ipv6_apart :
    (v : Text)
    → (text_eq v (codes "ipv6")
        && (is_empty v
            || text_eq v (codes "auto")
            || text_eq v (codes "ipv4")
            || text_eq v (codes "dual")
            || text_eq v (codes "dual-stack")
            || text_eq v (codes "dualstack")))
      ≡ false
unfolding text_eq
ipv6_apart v = elim (Bool-cases (text_eq v (codes "ipv6"))) [
  | inl h ↦ rw ((text_eq_iff v (codes "ipv6")).0 h) refl
  | inr h ↦ rw h refl
]

-- `parseIPsecMode` accepts the texts that `parseIPMode` accepts but for `ipv6`, as the same mode,
-- with `ipv4` for `auto`.
pub parse_ipsec_mode-for_ipsec :
    (value : Text) → parse_ipsec_mode value ≡ for_ipsec (parse_ip_mode value)
unfolding parse_ipsec_mode parse_ip_mode
parse_ipsec_mode-for_ipsec value =
    let v = to_lower (trim_space value) in
    cases_agree (is_empty v) (text_eq v (codes "auto")) (text_eq v (codes "ipv4"))
      (text_eq v (codes "ipv6")) (text_eq v (codes "dual")) (text_eq v (codes "dual-stack"))
      (text_eq v (codes "dualstack")) (ipv6_apart v)

-- The flags with which a password comes from a source.
abbrev pub IsChosen : Bool → Text → Text → Bool → PasswordSource → Type 0
IsChosen saml username password stdin no_password =
    (saml ≡ true) × (is_empty username ≡ true) × (is_empty password ≡ true) × (stdin ≡ false)
IsChosen saml username password stdin (from_flag p) =
    (saml ≡ false)
    × (is_empty username ≡ false)
    × (is_empty password ≡ false)
    × (stdin ≡ false)
    × (p ≡ password)
IsChosen saml username password stdin from_stdin =
    (saml ≡ false) × (is_empty username ≡ false) × (is_empty password ≡ true) × (stdin ≡ true)
IsChosen saml username password stdin from_terminal =
    (saml ≡ false) × (is_empty username ≡ false) × (is_empty password ≡ true) × (stdin ≡ false)

-- Without SAML a username is needed, and the password comes from its flag, standard input or the
-- terminal, from at most one of the first two; with SAML none of these is given.
pub password_for_authentication-IsChosen :
    (saml : Bool) (username password : Text) (stdin : Bool) (s : PasswordSource)
    → password_for_authentication saml username password stdin ≡ ok s
    → IsChosen saml username password stdin s
unfolding password_for_authentication
password_for_authentication-IsChosen saml username password stdin no_password h = ground (arith, h)
password_for_authentication-IsChosen saml username password stdin (from_flag p) h =
    ground (arith, h)
password_for_authentication-IsChosen saml username password stdin from_stdin h = ground (arith, h)
password_for_authentication-IsChosen saml username password stdin from_terminal h =
    ground (arith, h)
