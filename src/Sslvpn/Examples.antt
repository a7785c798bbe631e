-- ===== src/Sslvpn/Examples.antt =====
-- A session whose routes are refused, one that runs, and the theorems at them.
use fortivpn_go.Prelude.{
  ◌≡◌, refl, true, false, none, some, List, [], ◌∷◌, err, ok, pos, Text, codes, text_eq,
}
use fortivpn_go.Netip.{unset, v4}
use fortivpn_go.Network.{auto, Config}
use fortivpn_go.Engine.{End, tunnel_end, device_end}
use fortivpn_go.Sslvpn.{
  allocate, Device, routes_failed, cancelled_setup, Effect, allocated, transport_opened,
  device_created, configured, routes_configured, routes_removed, report_cleanup, device_closed,
  transport_closed, Backend, Connection, has_tunnel_method, settings_of, close_managed, close,
  connect, run,
}
use fortivpn_go.Sslvpn.Released.{IsReleased, Outcome}
use fortivpn_go.Fortinet.Client.Demo.{demo, portal, bob, secret}
use fortivpn_go.Auth.{authenticate}
use fortivpn_go.Sslvpn.Allocation.{HasAuthenticated, allocate-authenticate}
use fortivpn_go.Sslvpn.SetUp.{IsSetUp, connect-Outcome, run-connect}

abbrev settings : Config
settings = record {
  ipv4_config =
      some
        (record { address = record { addr = v4 0x0a000005; bits_plus_one = 33 }; gateway = unset });
  ipv6_config = none;
  dns = v4 0x0a000035 ∷ [];
  domains = [];
  routes4 = [];
  routes6 = [];
  mtu = pos 1400;
  tunnel_methods = codes "ppp" ∷ codes "tun" ∷ [];
}

abbrev tun0 : Device
tun0 = record { name = codes "tun0"; is_configurer = true }

abbrev working : Backend
working = record {
  allocation = some settings;
  opens_transport = λ dns. true;
  device = some tun0;
  configures = λ s. true;
  routes_left = λ name r4 r6. true;
  routes_cleanup = λ name r4 r6. true;
  routes_succeed = λ name r4 r6. true;
  is_cancelled = false;
  removes_routes = false;
  reports_cleanup = true;
  closes_device = true;
  closes_transport = true;
}

-- The setup is cancelled after the routes are there.
abbrev cancelled_late : Backend
cancelled_late = record working { is_cancelled = true }

abbrev gateway : Text
gateway = codes "vpn.example.test"

connect-Outcome_example :
    Outcome cancelled_late (IsSetUp cancelled_late gateway) (connect cancelled_late gateway)
connect-Outcome_example = connect-Outcome cancelled_late gateway

undone : connect cancelled_late gateway ≡ (
  err cancelled_setup,
  allocated true
      ∷ transport_opened settings.dns true
      ∷ device_created true
      ∷ configured (settings_of settings) true
      ∷ routes_configured (codes "tun0") [] [] true true true
      ∷ transport_closed true
      ∷ routes_removed false
      ∷ report_cleanup
      ∷ device_closed true
      ∷ [],
)
unfolding connect close close_managed has_tunnel_method text_eq
undone = refl

-- Routes that are left without a cleanup stay when `Connect` fails.
abbrev leaving : Backend
leaving = record working {
  routes_cleanup = λ name r4 r6. false;
  routes_succeed = λ name r4 r6. false;
}

routes_stay : connect leaving gateway ≡ (
  err routes_failed,
  allocated true
      ∷ transport_opened settings.dns true
      ∷ device_created true
      ∷ configured (settings_of settings) true
      ∷ routes_configured (codes "tun0") [] [] true false false
      ∷ transport_closed true
      ∷ device_closed true
      ∷ [],
)
unfolding connect close close_managed has_tunnel_method text_eq
routes_stay = refl

abbrev up : Connection
up = record {
  info = record { gateway = gateway; interface = codes "tun0"; config = settings };
  device = some (record { device = tun0; has_cleanup = true; once = false; close_failed = false });
  once = false;
  close_err = [];
}

abbrev set_up : List Effect
set_up =
    allocated true
    ∷ transport_opened settings.dns true
    ∷ device_created true
    ∷ configured (settings_of settings) true
    ∷ routes_configured (codes "tun0") [] [] true true true
    ∷ []

connected : connect working gateway ≡ (ok up, set_up)
unfolding connect has_tunnel_method text_eq
connected = refl

abbrev both : List End
both = tunnel_end ∷ device_end ∷ []

run-connect_example : IsReleased working (run working both up set_up)
run-connect_example = run-connect working gateway both up set_up connected

allocate-authenticate_example :
    HasAuthenticated demo portal auto
      (authenticate demo portal bob secret [] [])
      (allocate demo portal (authenticate demo portal bob secret []) auto [])
allocate-authenticate_example = allocate-authenticate demo portal bob secret [] auto []
