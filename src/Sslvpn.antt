-- ===== src/Sslvpn.antt =====
-- internal/sslvpn/backend.go and lifecycle.go: allocation, setup and teardown of a session.
pub mod Held
pub mod Released
pub mod SetUp
pub mod Allocation
mod Examples
use fortivpn_go.Prelude.{
  Bool, true, false, not, ◌&&◌, Option, none, some, List, [], ◌∷◌, ◌++◌, if◌then◌else◌, any, Result,
  err, ok, Text, codes, text_eq,
}
use fortivpn_go.Netip.{Addr}
use fortivpn_go.Network.{IpMode, auto, ipv4, ipv6, other, Route, Config}
use fortivpn_go.Tun.{TunConfig}
use fortivpn_go.Engine.{reads, End, tunnel_end, device_end}
use fortivpn_go.Fortinet.Client.{Request, Library, Gateway, Sent}
use fortivpn_go.Fortinet.Client.Allocate.{network_config_for_ip_mode}

-- `New` reads an empty mode as auto.
abbrev pub mode_or_auto : IpMode → IpMode
mode_or_auto (other []) = auto
mode_or_auto m = m

abbrev pub authenticated : (lib : Library) (gw : Gateway) → IpMode → Sent (Unit {0}) → Sent Config
authenticated lib gw mode (ok u, sent) = network_config_for_ip_mode lib gw (mode_or_auto mode) sent
authenticated lib gw mode (err e, sent) = (err e, sent)

-- The `allocate` that `New` makes: the authenticator, and then the settings.
unfoldable pub allocate :
    (lib : Library) (gw : Gateway)
    → (List Request → Sent (Unit {0}))
    → IpMode
    → List Request
    → Sent Config
unfolding network_config_for_ip_mode
allocate lib gw authenticate mode sent = authenticated lib gw mode (authenticate sent)

-- A device, and whether it implements `tun.Configurer`.
pub record Device : Type 0 where
  pub name : Text
  pub is_configurer : Bool

pub data SessionError : Type 0 where
  allocation_failed no_tun_method transport_failed device_failed : SessionError
  not_configurable configure_failed routes_failed cancelled_setup : SessionError

-- What is done to the world outside, and whether it succeeds.
pub data Effect : Type 0 where
  allocated : Bool → Effect
  transport_opened : List Addr → Bool → Effect
  device_created : Bool → Effect
  configured : TunConfig → Bool → Effect
  routes_configured : Text → (routes4 routes6 : List Route) → (left given succeeds : Bool) → Effect
  routes_removed : Bool → Effect
  report_cleanup : Effect
  device_closed transport_closed : Bool → Effect

-- What the functions of the backend give. `ConfigureRoutes` may leave routes installed, and gives a
-- cleanup, or not, beside its error.
pub record Backend : Type 0 where
  pub allocation : Option Config
  pub opens_transport : List Addr → Bool
  pub device : Option Device
  pub configures : TunConfig → Bool
  pub routes_left : Text → (routes4 routes6 : List Route) → Bool
  pub routes_cleanup : Text → (routes4 routes6 : List Route) → Bool
  pub routes_succeed : Text → (routes4 routes6 : List Route) → Bool
  pub is_cancelled : Bool
  pub removes_routes : Bool
  pub reports_cleanup : Bool
  pub closes_device : Bool
  pub closes_transport : Bool

-- `routeCleanupDevice`, with its `once` and the error that it keeps
pub record RouteCleanupDevice : Type 0 where
  pub device : Device
  pub has_cleanup : Bool
  pub once : Bool
  pub close_failed : Bool

pub record SessionInfo : Type 0 where
  pub gateway : Text
  pub interface : Text
  pub config : Config

pub data CloseFault : Type 0 where
  transport_fault device_fault : CloseFault

pub record Connection : Type 0 where
  pub info : SessionInfo
  pub device : Option RouteCleanupDevice
  pub once : Bool
  pub close_err : List CloseFault

-- `hasTunnelMethod`
unfoldable pub has_tunnel_method : Config → Text → Bool
has_tunnel_method c method = any (λ candidate. text_eq candidate method) c.tunnel_methods

abbrev pub settings_of : Config → TunConfig
settings_of c = record { ipv4 = c.ipv4_config; ipv6 = c.ipv6_config; mtu = c.mtu }

abbrev pub fault_if : Bool → CloseFault → List CloseFault
fault_if true f = f ∷ []
fault_if false f = []

module _ (w : Backend) where
  abbrev pub reported : List Effect
  reported = if not w.removes_routes && w.reports_cleanup then report_cleanup ∷ [] else []

  abbrev pub cleaned : Bool → List Effect
  cleaned true = routes_removed w.removes_routes ∷ reported
  cleaned false = []

  -- `routeCleanupDevice.Close`
  unfoldable pub close_managed : RouteCleanupDevice → List Effect → RouteCleanupDevice × List Effect
  close_managed d ran = if d.once then (d, ran) else (
    record d { once = true; close_failed = not w.closes_device },
    ran ++ (cleaned d.has_cleanup ++ (device_closed w.closes_device ∷ [])),
  )

  abbrev pub closing :
      Connection → Option RouteCleanupDevice → List Effect → Connection × List Effect
  closing s none ran =
      (record s { once = true; close_err = fault_if (not w.closes_transport) transport_fault }, ran)
  closing s (some d) ran =
      let closed = close_managed d ran in
      (
        record s {
          device = some closed.0;
          once = true;
          close_err =
              fault_if (not w.closes_transport) transport_fault
              ++ fault_if closed.0.close_failed device_fault;
        },
        closed.1,
      )

  -- `connection.Close`
  unfoldable pub close : Connection → List Effect → Connection × List Effect
  unfolding close_managed
  close s ran =
      if s.once
      then (s, ran)
      else closing s s.device (ran ++ (transport_closed w.closes_transport ∷ []))

  -- The deferred `Close` of `Connect`, on an error.
  abbrev pub failing :
      Connection → List Effect → SessionError → Result SessionError Connection × List Effect
  failing s ran e = (err e, (close s ran).1)

  abbrev pub with_routes :
      Connection → RouteCleanupDevice → List Effect → Result SessionError Connection × List Effect
  with_routes s d ran =
      let c = s.info.config in
      let name = d.device.name in
      let left = w.routes_left name c.routes4 c.routes6 in
      let given = w.routes_cleanup name c.routes4 c.routes6 in
      let succeeds = w.routes_succeed name c.routes4 c.routes6 in
      let t = record s { device = some (record d { has_cleanup = given }) } in
      let ran' = ran ++ (routes_configured name c.routes4 c.routes6 left given succeeds ∷ []) in
      if not succeeds
      then failing t ran' routes_failed
      else if w.is_cancelled
      then failing t ran' cancelled_setup
      else (ok (record t { info = record s.info { interface = name } }), ran')

  abbrev pub with_settings :
      Connection → RouteCleanupDevice → List Effect → Result SessionError Connection × List Effect
  with_settings s d ran =
      let settings = settings_of s.info.config in
      let ran' = ran ++ (configured settings (w.configures settings) ∷ []) in
      if not d.device.is_configurer
      then failing s ran not_configurable
      else if w.configures settings
      then with_routes s d ran'
      else failing s ran' configure_failed

  abbrev pub with_device :
      Connection → Option Device → List Effect → Result SessionError Connection × List Effect
  with_device s none ran = failing s (ran ++ (device_created false ∷ [])) device_failed
  with_device s (some device) ran =
      let d : RouteCleanupDevice = record {
        device = device;
        has_cleanup = false;
        once = false;
        close_failed = false;
      } in
      with_settings (record s { device = some d }) d (ran ++ (device_created true ∷ []))

  abbrev pub first_connection : Text → Config → Connection
  first_connection gateway c = record {
    info = record { gateway = gateway; interface = []; config = c };
    device = none;
    once = false;
    close_err = [];
  }

  abbrev pub with_config : Text → Option Config → Result SessionError Connection × List Effect
  with_config gateway none = (err allocation_failed, allocated false ∷ [])
  with_config gateway (some c) =
      let opens = w.opens_transport c.dns in
      let ran = allocated true ∷ transport_opened c.dns opens ∷ [] in
      if not (has_tunnel_method c (codes "tun"))
      then (err no_tun_method, allocated true ∷ [])
      else if opens
      then with_device (first_connection gateway c) w.device ran
      else (err transport_failed, ran)

  -- `Connect`
  unfoldable pub connect : Text → Result SessionError Connection × List Effect
  unfolding close has_tunnel_method
  connect gateway = with_config gateway w.allocation

  abbrev pub probed : Option Config → Bool × List Effect
  probed none = (false, allocated false ∷ [])
  probed (some c) =
      let opens = w.opens_transport c.dns in
      let ran = allocated true ∷ transport_opened c.dns opens ∷ [] in
      (opens, if opens then ran ++ (transport_closed w.closes_transport ∷ []) else ran)

  -- `Probe`
  unfoldable pub probe : Bool × List Effect
  probe = probed w.allocation

  abbrev pub close_device_of :
      Connection → Option RouteCleanupDevice → List Effect → Connection × List Effect
  close_device_of s none ran = (s, ran)
  close_device_of s (some d) ran =
      let closed = close_managed d ran in (record s { device = some closed.0 }, closed.1)

  -- What the packet engine closes: the session in place of its transport, and the device.
  unfoldable pub close_end : End → Connection → List Effect → Connection × List Effect
  unfolding close
  close_end tunnel_end s ran = close s ran
  close_end device_end s ran = close_device_of s s.device ran

  unfoldable pub close_ends : List End → Connection → List Effect → Connection × List Effect
  unfolding close_end
  close_ends [] s ran = (s, ran)
  close_ends (e ∷ es) s ran = let closed = close_end e s ran in close_ends es closed.0 closed.1

  -- `Run`, by the ends that the engine closes, and its deferred `Close`
  unfoldable pub run : List End → Connection → List Effect → Connection × List Effect
  unfolding close_ends
  run ends s ran = let closed = close_ends ends s ran in close closed.0 closed.1
