-- ===== src/Sslvpn/Allocation.antt =====
-- The allocation that `New` of internal/sslvpn/backend.go makes, with a password login.
use fortivpn_go.Prelude.{
  ◌≡◌, refl, ap, Bool, true, false, ◌||◌, List, if◌then◌else◌, ||-false, err, ok, Text, is_empty,
  trim_space,
}
use fortivpn_go.Network.{IpMode, Config}
use fortivpn_go.Fortinet.Client.{
  Request, empty_credentials, Library, Gateway, Sent, has_session_cookie, login_form,
  authenticate_password,
}
use fortivpn_go.Fortinet.Client.Login.{HasLoggedIn, authenticate_password-HasLoggedIn}
use fortivpn_go.Fortinet.Client.Allocate.Runs.{HasAllocated}
use fortivpn_go.Fortinet.Client.Allocate.Selected.{network_config-HasAllocated}
use fortivpn_go.Auth.{authenticate}
use fortivpn_go.Sslvpn.{mode_or_auto, authenticated, allocate}

module _ (lib : Library) (gw : Gateway) where
  -- After a login that fails nothing more is sent. After one that succeeds the session cookie is
  -- there, and the settings are asked for and read by the mode.
  abbrev pub HasAuthenticated : IpMode → Sent (Unit {0}) → Sent Config → Type 0
  HasAuthenticated mode (err e, sent) r = r ≡ (err e, sent)
  HasAuthenticated mode (ok u, sent) r =
      (has_session_cookie lib gw sent ≡ true) × HasAllocated lib gw (mode_or_auto mode) sent r

  login_cookie :
      (login : Request) (before sent : List Request) (u : Unit {0}) (r : Sent (Unit {0}))
      → r ≡ (ok u, sent)
      → HasLoggedIn lib gw before login r
      → has_session_cookie lib gw sent ≡ true
  login_cookie login before sent u (err e, s) k h =
      let m = ap (λ (x : Sent (Unit {0})). x.0) k in cc
  login_cookie login before sent u (ok v, s) k (later, o, n, a, h) =
      rw (← ap (λ (x : Sent (Unit {0})). x.1) k) h

  past_guard :
      (refused : Bool) (before sent : List Request) (u : Unit {0}) (r : Sent (Unit {0}))
      → (if refused then (err empty_credentials, before) else r) ≡ (ok u, sent)
      → (refused ≡ false) × (r ≡ (ok u, sent))
  past_guard true before sent u r h = let m = ap (λ (x : Sent (Unit {0})). x.0) h in cc
  past_guard false before sent u r h = (refl, h)

  authenticate_cookie :
      (username password realm : Text) (before sent : List Request) (u : Unit {0})
      → authenticate lib gw username password realm before ≡ (ok u, sent)
      → has_session_cookie lib gw sent ≡ true
  unfolding authenticate
  authenticate_cookie username password realm before sent u h =
      let blank = is_empty (trim_space username) in
      let (k, m) =
        past_guard (blank || is_empty password) before sent u
          (authenticate_password lib gw username password realm before) h in
      let (a, b) = ||-false blank (is_empty password) k in
      login_cookie (login_form lib gw username password realm) before sent u _ m
        (authenticate_password-HasLoggedIn lib gw username password realm before a b)

  authenticated-cookie :
      (mode : IpMode) (r : Sent (Unit {0}))
      → ((u : Unit {0}) (sent : List Request)
          → r ≡ (ok u, sent)
          → has_session_cookie lib gw sent ≡ true)
      → HasAuthenticated mode r (authenticated lib gw mode r)
  authenticated-cookie mode (err e, sent) h = refl
  authenticated-cookie mode (ok u, sent) h =
      (h u sent refl, network_config-HasAllocated lib gw (mode_or_auto mode) sent)

  -- With a password login, no settings are asked for before the session cookie is there. When the
  -- login fails, its error is the result and nothing more is sent; otherwise the index, the tunnel
  -- and the documents are asked for in this order, each after an answer to the one before, and the
  -- settings are the part for the mode of what the answered document says.
  pub allocate-authenticate :
      (username password realm : Text) (mode : IpMode) (sent : List Request)
      → HasAuthenticated mode
          (authenticate lib gw username password realm sent)
          (allocate lib gw (authenticate lib gw username password realm) mode sent)
  unfolding allocate
  allocate-authenticate username password realm mode sent =
      authenticated-cookie mode (authenticate lib gw username password realm sent)
        (λ u s. authenticate_cookie username password realm sent s u)
