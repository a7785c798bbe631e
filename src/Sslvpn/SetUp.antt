-- ===== src/Sslvpn/SetUp.antt =====
-- `Connect` of internal/sslvpn/backend.go keeps the contract of internal/session/session.go.
use mathlib.Core.Path.{subst}
use fortivpn_go.Prelude.{
  ◌≡◌, refl, ◌∙◌, inl, inr, Bool, true, false, not, ◌&&◌, Option, none, some, List, [], ◌∷◌, ◌++◌,
  arith, if◌then◌else◌, Bool-cases, not-false, by_if, ok, Text, codes,
}
use fortivpn_go.Netip.{Addr}
use fortivpn_go.Network.{Config}
use fortivpn_go.Engine.{End}
use fortivpn_go.Sslvpn.{
  Device, device_failed, not_configurable, configure_failed, routes_failed, cancelled_setup, Effect,
  allocated, transport_opened, device_created, configured, routes_configured, transport_closed,
  Backend, RouteCleanupDevice, Connection, has_tunnel_method, settings_of, failing, with_routes,
  with_settings, with_device, first_connection, with_config, connect, probed, probe, run,
}
use fortivpn_go.Sslvpn.Held.{
  nothing_held, all_held, all_held-more, has_stray, has_stray-append, routes_of, Owns,
}
use fortivpn_go.Sslvpn.Released.{
  holding, IsReleased, run-IsReleased, HasNoStray, Outcome, failing-Outcome,
}

abbrev managed : Device → Bool → RouteCleanupDevice
managed device given = record {
  device = device;
  has_cleanup = given;
  once = false;
  close_failed = false;
}

-- The session over an open device.
abbrev opened : Text → Config → Device → Bool → Connection
opened gateway c device given = record {
  info = record { gateway = gateway; interface = []; config = c };
  device = some (managed device given);
  once = false;
  close_err = [];
}

opened-Owns :
    (gateway : Text) (c : Config) (device : Device) (given : Bool) (ran : List Effect)
    → all_held ran ≡ some (holding true true given)
    → Owns (opened gateway c device given) ran
opened-Owns gateway c device given ran h = record { held = h; over = λ k. cc }

abbrev opening : Config → List Effect
opening c = allocated true ∷ transport_opened c.dns true ∷ []

-- What a setup does that succeeds, in order, and nothing else.
abbrev pub set_up_effects : Config → Device → (left given : Bool) → List Effect
set_up_effects c device left given =
    allocated true
    ∷ transport_opened c.dns true
    ∷ device_created true
    ∷ configured (settings_of c) true
    ∷ routes_configured device.name c.routes4 c.routes6 left given true
    ∷ []

module _ (w : Backend) (gateway : Text) where
  -- What every session that is set up satisfies, and what was done for it.
  pub record IsSetUp (s : Connection) (ran : List Effect) : Type 0 where
    pub device : Device
    pub created : w.device ≡ some device
    pub configurer : device.is_configurer ≡ true
    pub info :
        s.info ≡ record { gateway = gateway; interface = device.name; config = s.info.config }
    pub allocation : w.allocation ≡ some s.info.config
    pub offered : has_tunnel_method s.info.config (codes "tun") ≡ true
    pub accepted : w.configures (settings_of s.info.config) ≡ true
    pub routed : w.routes_succeed device.name s.info.config.routes4 s.info.config.routes6 ≡ true
    pub live : w.is_cancelled ≡ false
    pub done :
        ran
        ≡ set_up_effects s.info.config device
            (w.routes_left device.name s.info.config.routes4 s.info.config.routes6)
            (routes_of s.device)

  module _ (c : Config) (device : Device) (a : w.allocation ≡ some c)
      (m : has_tunnel_method c (codes "tun") ≡ true) (d : w.device ≡ some device) where
    routes-HasNoStray :
        (ran : List Effect) (succeeds : Bool)
        → has_stray ran ≡ false
        → HasNoStray w (
            ran
            ++ (routes_configured device.name c.routes4 c.routes6
                  (w.routes_left device.name c.routes4 c.routes6)
                  (w.routes_cleanup device.name c.routes4 c.routes6)
                  succeeds
                ∷ []))
    routes-HasNoStray ran succeeds h =
        let left = w.routes_left device.name c.routes4 c.routes6 in
        let given = w.routes_cleanup device.name c.routes4 c.routes6 in
        elim (Bool-cases (left && not given)) [
          | inl k ↦ inr (c, device, a, d, ground (arith, k), ground (arith, k))
          | inr k ↦ inl (has_stray-append ran _ ∙ rw (h, k) refl)
        ]

    with_routes-Outcome :
        (ran : List Effect)
        → device.is_configurer ≡ true
        → w.configures (settings_of c) ≡ true
        → ran ≡ opening c ++ (device_created true ∷ configured (settings_of c) true ∷ [])
        → all_held ran ≡ some (holding true true false)
        → Outcome w IsSetUp
            (with_routes w (opened gateway c device false) (managed device false) ran)
    with_routes-Outcome ran i f r h =
        let left = w.routes_left device.name c.routes4 c.routes6 in
        let given = w.routes_cleanup device.name c.routes4 c.routes6 in
        let s = opened gateway c device given in
        let succeeds = w.routes_succeed device.name c.routes4 c.routes6 in
        let ran' =
          ran ++ (routes_configured device.name c.routes4 c.routes6 left given succeeds ∷ []) in
        let owned =
          opened-Owns gateway c device given ran'
            (all_held-more ran _ (holding true true false) h) in
        let none_left = routes-HasNoStray ran succeeds (rw r refl) in
        let named : Connection = record s { info = record s.info { interface = device.name } } in
        by_if (Outcome w IsSetUp) (not succeeds) (failing w s ran' routes_failed)
          (if w.is_cancelled then failing w s ran' cancelled_setup else (ok named, ran'))
          (λ k. failing-Outcome w IsSetUp s ran' routes_failed owned none_left)
          (λ k.
            by_if (Outcome w IsSetUp) w.is_cancelled (failing w s ran' cancelled_setup)
              (ok named, ran')
              (λ l. failing-Outcome w IsSetUp s ran' cancelled_setup owned none_left)
              (λ l. (
                record { held = owned.held; over = λ n. cc },
                refl,
                record {
                  device = device;
                  created = d;
                  configurer = i;
                  info = refl;
                  allocation = a;
                  offered = m;
                  accepted = f;
                  routed = not-false _ k;
                  live = l;
                  done = rw (r, not-false _ k) refl;
                },
              )))

    with_settings-Outcome :
        (ran : List Effect)
        → ran ≡ opening c ++ (device_created true ∷ [])
        → all_held ran ≡ some (holding true true false)
        → Outcome w IsSetUp
            (with_settings w (opened gateway c device false) (managed device false) ran)
    with_settings-Outcome ran r h =
        let s = opened gateway c device false in
        let more = all_held-more ran _ (holding true true false) h in
        by_if (Outcome w IsSetUp) _ _ _
          (λ k.
            failing-Outcome w IsSetUp s _ not_configurable
              (opened-Owns gateway c device false ran h) (inl (rw r refl)))
          (λ k.
            by_if (Outcome w IsSetUp) _ _ _
              (λ l. with_routes-Outcome _ (not-false _ k) l (rw (r, l) refl) more)
              (λ l.
                failing-Outcome w IsSetUp s _ configure_failed
                  (opened-Owns gateway c device false _ more) (inl (rw r refl))))

  first_connection-Owns :
      (c : Config) (ran : List Effect)
      → all_held ran ≡ some (holding true false false)
      → Owns (first_connection w gateway c) ran
  first_connection-Owns c ran h = record { held = h; over = λ k. cc }

  with_device-Outcome :
      (c : Config) (d : Option Device) (ran : List Effect)
      → w.allocation ≡ some c
      → has_tunnel_method c (codes "tun") ≡ true
      → w.device ≡ d
      → ran ≡ opening c
      → all_held ran ≡ some (holding true false false)
      → Outcome w IsSetUp (with_device w (first_connection w gateway c) d ran)
  with_device-Outcome c none ran a m d r h =
      failing-Outcome w IsSetUp (first_connection w gateway c) _ device_failed
        (first_connection-Owns c _ (all_held-more ran _ (holding true false false) h))
        (inl (rw r refl))
  with_device-Outcome c (some device) ran a m d r h =
      with_settings-Outcome c device a m d _ (rw r refl)
        (all_held-more ran _ (holding true false false) h)

  with_config-Outcome :
      (r : Option Config) → w.allocation ≡ r → Outcome w IsSetUp (with_config w gateway r)
  with_config-Outcome none a = (refl, inl refl)
  with_config-Outcome (some c) a =
      by_if (Outcome w IsSetUp) _ _ _ (λ k. (refl, inl refl))
        (λ k.
          by_if (Outcome w IsSetUp) (w.opens_transport c.dns) _ _
            (λ l.
              with_device-Outcome c w.device _ a (not-false _ k) refl (rw l refl) (opens_held l))
            (λ l. (opens_held l, inl refl)))
    where
      opens_held :
          {b : Bool}
          → w.opens_transport c.dns ≡ b
          → all_held (allocated true ∷ transport_opened c.dns (w.opens_transport c.dns) ∷ [])
            ≡ some (holding b false false)
      opens_held l = rw l refl

  -- `Connect` keeps the contract of a backend but for what `ConfigureRoutes` leaves. When it fails,
  -- whatever failed, the transport, the interface and the routes that have a cleanup are released,
  -- once and in order, the routes before the interface; and no other routes are left, unless
  -- `ConfigureRoutes` left them installed and gave no cleanup. A release counts when it was called,
  -- whether or not it succeeds. When it gives a session, that session
  -- owns all that was opened; exactly these things were done, in this order: the
  -- allocation, the transport with the DNS servers, the interface, its configuration with the
  -- gateway's addresses, and the gateway's routes through it; the gateway offers the tunnel method,
  -- and the setup was not cancelled.
  pub connect-Outcome : Outcome w IsSetUp (connect w gateway)
  unfolding connect
  connect-Outcome = with_config-Outcome w.allocation refl

-- Whatever the packet engine closes, in whatever order and however often, after the `Run` of a
-- session that `Connect` gave nothing is held, all was undone once and in order, and a further
-- `Close` does nothing.
pub run-connect :
    (w : Backend) (gateway : Text) (ends : List End) (s : Connection) (ran : List Effect)
    → connect w gateway ≡ (ok s, ran)
    → IsReleased w (run w ends s ran)
run-connect w gateway ends s ran h =
    run-IsReleased w ends s ran
      (subst (Outcome w (IsSetUp w gateway)) h (connect-Outcome w gateway)).0

-- `Probe` leaves nothing open either.
probe_held : (w : Backend) → all_held (probe w).1 ≡ some nothing_held
unfolding probe
probe_held w = probed_held w.allocation
  where
    closed_held :
        (b : Bool) (dns : List Addr)
        → all_held (
            if b
            then allocated true ∷ transport_opened dns b ∷ transport_closed w.closes_transport ∷ []
            else allocated true ∷ transport_opened dns b ∷ [])
          ≡ some nothing_held
    closed_held true dns = refl
    closed_held false dns = refl

    probed_held : (r : Option Config) → all_held (probed w r).1 ≡ some nothing_held
    probed_held none = refl
    probed_held (some c) = closed_held (w.opens_transport c.dns) c.dns
