-- ===== src/Cli/Inputs.antt =====
-- cmd/fortivpn: what the flags of `tun create` and the password flags are turned into.
use mathlib.Core.Path.{subst}
use fortivpn_go.Prelude.{
  ◌≡◌, refl, sym, ◌⊎◌, inl, inr, Bool, true, false, not, ◌&&◌, ◌||◌, Option, none, some, [], ◌∷◌,
  if◌then◌else◌, Bool-cases, Result, err, ok, reject, ok-injective, reject-ok, ◌>>=◌, ◌>>◌,
  >>-eq-ok, >>=-eq-ok, ℤ, is_zero, Text, codes, is_empty, text_eq, trim_space, to_lower,
}
use fortivpn_go.Netip.{Addr, unset, is4, is6, Prefix, AddrText}
use fortivpn_go.Network.{IpMode, ipv4, dual, IpConfig, is_nil}
use fortivpn_go.Tun.Applied.{IsValidConfig, validate_config-IsValidConfig}
use fortivpn_go.Tun.{TunConfig, TunError, validate_config}

pub data InputError : Type 0 where
  gateway_without_prefix invalid_prefix invalid_gateway nothing_given : InputError
  two_ways no_username two_passwords invalid_ipsec_mode : InputError
  refused : TunError → InputError

-- `family` is 4 or 6 in every call.
pub data Family : Type 0 where
  four six : Family

abbrev pub is_family : Family → Addr → Bool
is_family four = is4
is_family six = is6

abbrev pub checked : {A : Type 0} → (A → Bool) → InputError → Option A → Result InputError A
checked p e none = err e
checked p e (some a) = if p a then ok a else err e

abbrev pub of_family : Family → Prefix → Bool
of_family family p = is_family family p.addr

abbrev pub with_gateway : Prefix → Addr → Option IpConfig
with_gateway p g = some (record { address = p; gateway = g })

abbrev pub given_gateway : (net : AddrText) → Text → Family → Result InputError Addr
given_gateway net raw family =
    if is_empty raw
    then ok unset
    else checked (is_family family) invalid_gateway (net.parse_addr raw)

abbrev pub given_config :
    (net : AddrText) → Text → Text → Family → Result InputError (Option IpConfig)
given_config net raw_prefix raw_gateway family = do
  p ← checked (of_family family) invalid_prefix (net.parse_prefix raw_prefix)
  g ← given_gateway net raw_gateway family
  ok (with_gateway p g)

-- `parseIPConfig`
unfoldable pub parse_ip_config :
    (net : AddrText) → Text → Text → Family → Result InputError (Option IpConfig)
parse_ip_config net raw_prefix raw_gateway family =
    if is_empty raw_prefix
    then (if is_empty raw_gateway then ok none else err gateway_without_prefix)
    else given_config net raw_prefix raw_gateway family

abbrev pub accepted : TunConfig → Result TunError (Unit {0}) → Result InputError TunConfig
accepted c (ok u) = ok c
accepted c (err e) = err (refused e)

-- `tunConfig`
unfoldable pub tun_config :
    (net : AddrText) → (ipv4 gateway4 ipv6 : Text) → ℤ → Result InputError TunConfig
unfolding parse_ip_config
tun_config net raw4 gateway4 raw6 mtu = do
  four_config ← parse_ip_config net raw4 gateway4 four
  six_config ← parse_ip_config net raw6 [] six
  reject (is_nil four_config && is_nil six_config && is_zero mtu) nothing_given
  let c : TunConfig = record { ipv4 = four_config; ipv6 = six_config; mtu = mtu }
  accepted c (validate_config c)

-- Where a password comes from: the flag, standard input, or the terminal; none for SAML.
pub data PasswordSource : Type 0 where
  no_password from_stdin from_terminal : PasswordSource
  from_flag : Text → PasswordSource

-- `passwordForAuthentication`, up to the reading.
unfoldable pub password_for_authentication :
    (saml : Bool) (username password : Text) (password_stdin : Bool)
    → Result InputError PasswordSource
password_for_authentication true username password stdin =
    if not (is_empty username) || not (is_empty password) || stdin
    then err two_ways
    else ok no_password
password_for_authentication false username password stdin =
    if is_empty username
    then err no_username
    else if not (is_empty password)
    then (if stdin then err two_passwords else ok (from_flag password))
    else if stdin
    then ok from_stdin
    else ok from_terminal

-- `parseIPsecMode`
unfoldable pub parse_ipsec_mode : Text → Result InputError IpMode
parse_ipsec_mode value =
    let v = to_lower (trim_space value) in
    if is_empty v || text_eq v (codes "auto") || text_eq v (codes "ipv4")
    then ok ipv4
    else if text_eq v (codes "dual")
        || text_eq v (codes "dual-stack")
        || text_eq v (codes "dualstack")
    then ok dual
    else err invalid_ipsec_mode

-- A gateway that is given is of the family.
abbrev pub HasGatewayOf : Family → Option IpConfig → Type 0
HasGatewayOf family none = Unit {0}
HasGatewayOf family (some ip) = (ip.gateway ≡ unset) ⊎ (is_family family ip.gateway ≡ true)

checked-ok :
    {A : Type 0} (p : A → Bool) (e : InputError) (r : Option A) (a : A)
    → checked p e r ≡ ok a
    → p a ≡ true
checked-ok p e none a h = cc
checked-ok p e (some b) a h = elim (Bool-cases (p b)) [
  | inl t ↦ rw (← ok-injective b a (rw t at h)) t
  | inr f ↦ let k = rw f at h in cc
]

given_gateway-ok :
    (net : AddrText) (raw : Text) (family : Family) (g : Addr)
    → given_gateway net raw family ≡ ok g
    → (g ≡ unset) ⊎ (is_family family g ≡ true)
given_gateway-ok net [] family g h = inl (sym (ok-injective unset g h))
given_gateway-ok net (c ∷ s) family g h =
    inr (checked-ok (is_family family) invalid_gateway (net.parse_addr (c ∷ s)) g h)

given_config-ok :
    (net : AddrText) (raw_prefix raw_gateway : Text) (family : Family) (r : Option IpConfig)
    → given_config net raw_prefix raw_gateway family ≡ ok r
    → HasGatewayOf family r
given_config-ok net raw_prefix raw_gateway family r h =
    let (p, a, h1) =
      >>=-eq-ok (checked (of_family family) invalid_prefix (net.parse_prefix raw_prefix)) _ h in
    let (g, b, h2) = >>=-eq-ok (given_gateway net raw_gateway family) _ h1 in
    subst (HasGatewayOf family) (ok-injective (with_gateway p g) r h2)
      (given_gateway-ok net raw_gateway family g b)

parse_ip_config-ok :
    (net : AddrText) (raw_prefix raw_gateway : Text) (family : Family) (r : Option IpConfig)
    → parse_ip_config net raw_prefix raw_gateway family ≡ ok r
    → HasGatewayOf family r
unfolding parse_ip_config
parse_ip_config-ok net [] [] family r h = subst (HasGatewayOf family) (ok-injective none r h) tt
parse_ip_config-ok net [] (c ∷ s) family r h = cc
parse_ip_config-ok net (c ∷ s) raw_gateway family r h =
    given_config-ok net (c ∷ s) raw_gateway family r h

accepted-ok :
    (c c' : TunConfig) (v : Result TunError (Unit {0}))
    → accepted c v ≡ ok c'
    → (v ≡ ok tt) × (c ≡ c')
accepted-ok c c' (ok u) h = (refl, ok-injective c c' h)
accepted-ok c c' (err e) h = cc

-- The settings that `tun create` builds are valid: the MTU is between 0 and 65535, and an address
-- that is given has a valid prefix of its family; a peer that is given is of that family too; and
-- not all of them are missing.
pub tun_config-IsValidConfig :
    (net : AddrText) (ipv4 gateway4 ipv6 : Text) (mtu : ℤ) (c : TunConfig)
    → tun_config net ipv4 gateway4 ipv6 mtu ≡ ok c
    → IsValidConfig c
      × HasGatewayOf four c.ipv4
      × HasGatewayOf six c.ipv6
      × ((is_nil c.ipv4 && is_nil c.ipv6 && is_zero c.mtu) ≡ false)
unfolding tun_config
tun_config-IsValidConfig net raw4 gateway4 raw6 mtu c h =
    let (c4, a, h1) = >>=-eq-ok (parse_ip_config net raw4 gateway4 four) _ h in
    let (c6, b, h2) = >>=-eq-ok (parse_ip_config net raw6 [] six) _ h1 in
    let (d, h3) = >>-eq-ok (reject (is_nil c4 && is_nil c6 && is_zero mtu) nothing_given) _ h2 in
    let c' : TunConfig = record { ipv4 = c4; ipv6 = c6; mtu = mtu } in
    let (v, e) = accepted-ok c' c (validate_config c') h3 in
    rw (← e) (
      validate_config-IsValidConfig c' v,
      parse_ip_config-ok net raw4 gateway4 four c4 a,
      parse_ip_config-ok net raw6 [] six c6 b,
      reject-ok _ _ d,
    )
