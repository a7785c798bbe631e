-- ===== src/Fortinet/Client/Endpoint/Base.antt =====
-- What `NewClient` of internal/fortinet/client.go accepts, and where `url` then leads.
use fortivpn_go.Prelude.{
  ◌≡◌, ◌≢◌, ◌⊎◌, true, false, some, [], ◌++◌, Result, err, ok, ℤ, pos, InRange, Text, codes,
  is_empty, trim_space,
}
use fortivpn_go.Fortinet.Client.Endpoint.{
  Url, Urls, EndpointError, invalid_port, gateway_required, bad_gateway, with_scheme, url,
}

module _ (urls : Urls) where
  -- The host of the address that was given, or with a port that is asked for, the hostname of it and
  -- that port.
  abbrev pub IsHost : Url → ℤ → Text → Type 0
  IsHost given port host =
      ((port ≡ pos 0) × (host ≡ given.host))
      ⊎ ((port ≢ pos 0) × (host ≡ urls.hostname given.host ++ (codes ":" ++ urls.itoa port)))

  abbrev pub IsPathless : Url → Type 0
  IsPathless u = (u.path ≡ []) ⊎ (u.path ≡ codes "/")

  -- The base address is what the text says, with https:// before it if it had no scheme, and with
  -- the port that is asked for. Every path below it leads to the same host over https.
  pub record IsBase (gateway : Text) (port : ℤ) (base : Url) : Type 0 where
    pub given : Url
    pub parsed : urls.parse (with_scheme (trim_space gateway)) ≡ some given
    pub pathless : IsPathless given
    pub placed_at : IsHost given port base.host
    pub host : is_empty base.host ≡ false
    pub in_range : InRange 0 65535 port
    pub target :
        (path : Text) (t : Url)
        → url urls base path ≡ some t
        → (t.scheme ≡ codes "https") × (t.host ≡ base.host) × (t.fragment ≡ [])

  -- Why an address is refused.
  abbrev pub IsRefused : Url → Type 0
  IsRefused u =
      (u.scheme ≢ codes "https") ⊎ (is_empty (urls.hostname u.host) ≡ true) ⊎ (¬ (IsPathless u))

  abbrev pub EndpointOutcome : Text → ℤ → Result EndpointError Url → Type 0
  EndpointOutcome gateway port (ok base) = IsBase gateway port base
  EndpointOutcome gateway port (err invalid_port) = ¬ (InRange 0 65535 port)
  EndpointOutcome gateway port (err gateway_required) = trim_space gateway ≡ []
  EndpointOutcome gateway port (err bad_gateway) =
      (u : Url) → urls.parse (with_scheme (trim_space gateway)) ≡ some u → IsRefused u
