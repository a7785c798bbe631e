-- ===== src/Ipsec/Negotiated/Remotes.antt =====
-- The checks on remote selectors of internal/ipsec/state.go, and the routes that they leave.
use mathlib.Core.Path.{subst}
use fortivpn_go.Prelude.{
  ◌+◌, ◌≤◌, ◌≡◌, refl, ◌∙◌, ◌⊎◌, Bool, true, false, not, ◌&&◌, ◌||◌, Option, none, some, List, [],
  ◌∷◌, arith, if◌then◌else◌, ltb→le, length, All, ok, reject, ok-injective, reject-ok, >>-eq-ok,
  >>=-eq-ok, IsDistinctBy, append_unique-IsDistinctBy, append_unique-All, Text, text_eq,
}
use fortivpn_go.Netip.{
  unset, is4, is6, is_4in6, is_multicast, Prefix, prefix_eq, masked, prefix_contains, AddrText,
}
use fortivpn_go.Network.{route_eq, Route, Config, bool_eq}
use fortivpn_go.Ipsec.Options.{Options, tcp}
use fortivpn_go.Ipsec.Negotiated.{
  max_routes, loopback, append_route, is_default, check_remote, route_to, with_route, add_remotes,
}

-- A route that may be installed: it starts at its network's address, is neither IPv4-mapped nor
-- multicast, and unless it is a default route leaves the gateway, and under TCP the relay on
-- the loopback address, outside the tunnel.
pub record IsAccepted (o : Options) (p : Prefix) : Type 0 where
  pub at_network : prefix_eq p (masked p) ≡ true
  pub not_mapped : is_4in6 p.addr ≡ false
  pub unicast : is_multicast p.addr ≡ false
  pub avoids_gateway :
      (is_default p ≡ true) ⊎ (is4 p.addr ≡ false) ⊎ (prefix_contains p o.gateway ≡ false)
  pub avoids_relay :
      (is_default p ≡ true)
      ⊎ (is4 p.addr ≡ false)
      ⊎ (text_eq o.transport tcp ≡ false)
      ⊎ (prefix_contains p loopback ≡ false)

abbrev pub IsRouteOf : Options → Bool → Route → Type 0
IsRouteOf o four r =
    IsAccepted o r.destination × (is4 r.destination.addr ≡ four) × (r.gateway ≡ unset)

abbrev pub IsDistinct : List Route → Type 0
IsDistinct = IsDistinctBy route_eq

pub record HasRoutes (o : Options) (c : Config) : Type 0 where
  pub all4 : All (IsRouteOf o true) c.routes4
  pub all6 : All (IsRouteOf o false) c.routes6
  pub distinct4 : IsDistinct c.routes4
  pub distinct6 : IsDistinct c.routes6
  pub few : length c.routes4 + length c.routes6 ≤ max_routes

append_route-IsDistinct :
    (rs : List Route) (r : Route) → IsDistinct rs → IsDistinct (append_route rs r)
unfolding append_route
append_route-IsDistinct = append_unique-IsDistinctBy route_eq

append_route-All :
    (P : Route → Type 0) (rs : List Route) (r : Route) → All P rs → P r → All P (append_route rs r)
unfolding append_route
append_route-All = append_unique-All route_eq

module _ (net : AddrText) (o : Options) (relayed : Bool) where
  at_network-test :
      (p : Prefix) (six : Bool)
      → (not (prefix_eq p (masked p))
          || is_4in6 p.addr
          || is_multicast p.addr
          || not (bool_eq (is6 p.addr) six))
        ≡ false
      → (prefix_eq p (masked p) ≡ true) × (is_4in6 p.addr ≡ false) × (is_multicast p.addr ≡ false)
  at_network-test p six h = ground (arith, h)

  gateway-test : (d f c : Bool) → (not d && f && c) ≡ false → (d ≡ true) ⊎ (f ≡ false) ⊎ (c ≡ false)
  gateway-test d f c h = ground (arith, h)

  relay-test :
      (d t f c : Bool)
      → (not d && t && f && c) ≡ false
      → (d ≡ true) ⊎ (f ≡ false) ⊎ (t ≡ false) ⊎ (c ≡ false)
  relay-test d t f c h = ground (arith, h)

  check_remote-IsAccepted :
      (six : Bool) (r : Option Prefix) (p : Prefix)
      → check_remote net o relayed six r ≡ ok p
      → IsAccepted o p
  unfolding check_remote
  check_remote-IsAccepted six none p h = cc
  check_remote-IsAccepted six (some q) p h =
      let (a, h1) = >>-eq-ok _ _ h in
      let (b, h2) = >>-eq-ok _ _ h1 in
      let (c, h3) = >>-eq-ok _ _ h2 in
      let (at, mapped4, unicast) = at_network-test q six (reject-ok _ _ a) in
      subst (IsAccepted o) (ok-injective q p h3) (record {
        at_network = at;
        not_mapped = mapped4;
        unicast = unicast;
        avoids_gateway =
            gateway-test (is_default q) (is4 q.addr) (prefix_contains q o.gateway)
              (reject-ok _ _ b);
        avoids_relay =
            relay-test (is_default q) (text_eq o.transport tcp) (is4 q.addr)
              (prefix_contains q loopback) (reject-ok _ _ c);
      })

  -- The two branches of adding a route.
  branch-HasRoutes :
      (b : Bool) (c : Config) (p : Prefix)
      → HasRoutes o c
      → IsAccepted o p
      → is4 p.addr ≡ b
      → let r = route_to net o relayed p in
        let d =
          if b
          then record c { routes4 = append_route c.routes4 r }
          else record c { routes6 = append_route c.routes6 r } in
        length d.routes4 + length d.routes6 ≤ max_routes → HasRoutes o d
  branch-HasRoutes true c p r a e h = record {
    all4 =
        append_route-All (IsRouteOf o true) c.routes4 (route_to net o relayed p) r.all4
          (a, e, refl);
    all6 = r.all6;
    distinct4 = append_route-IsDistinct c.routes4 (route_to net o relayed p) r.distinct4;
    distinct6 = r.distinct6;
    few = h;
  }
  branch-HasRoutes false c p r a e h = record {
    all4 = r.all4;
    all6 =
        append_route-All (IsRouteOf o false) c.routes6 (route_to net o relayed p) r.all6
          (a, e, refl);
    distinct4 = r.distinct4;
    distinct6 = append_route-IsDistinct c.routes6 (route_to net o relayed p) r.distinct6;
    few = h;
  }

  pub add_remotes-HasRoutes :
      (six : Bool) (c c' : Config) (raws : List Text)
      → HasRoutes o c
      → add_remotes net o relayed six c raws ≡ ok c'
      → HasRoutes o c'
  unfolding add_remotes
  add_remotes-HasRoutes six c c' [] r h = subst (HasRoutes o) (ok-injective c c' h) r
  add_remotes-HasRoutes six c c' (raw ∷ rest) r h =
      let (p, a, h1) = >>=-eq-ok (check_remote net o relayed six (net.parse_prefix raw)) _ h in
      let (b, h2) = >>-eq-ok (reject _ _) _ h1 in
      let d = with_route net o relayed c p in
      add_remotes-HasRoutes six d c' rest
        (branch-HasRoutes (is4 p.addr) c p r
          (check_remote-IsAccepted six (net.parse_prefix raw) p a) refl
          (ltb→le max_routes (length d.routes4 + length d.routes6) (reject-ok _ _ b)))
        h2

  keeps4 : (c : Config) (p : Prefix) → (with_route net o relayed c p).ipv4_config ≡ c.ipv4_config
  keeps4 c p = ground arith

  keeps6 : (c : Config) (p : Prefix) → (with_route net o relayed c p).ipv6_config ≡ c.ipv6_config
  keeps6 c p = ground arith

  pub add_remotes-keeps :
      (six : Bool) (c c' : Config) (raws : List Text)
      → add_remotes net o relayed six c raws ≡ ok c'
      → (c'.ipv4_config ≡ c.ipv4_config) × (c'.ipv6_config ≡ c.ipv6_config)
  unfolding add_remotes
  add_remotes-keeps six c c' [] h = let e = ok-injective c c' h in (rw e refl, rw e refl)
  add_remotes-keeps six c c' (raw ∷ rest) h =
      let (p, a, h1) = >>=-eq-ok (check_remote net o relayed six (net.parse_prefix raw)) _ h in
      let (b, h2) = >>-eq-ok (reject _ _) _ h1 in
      let (k, l) = add_remotes-keeps six (with_route net o relayed c p) c' rest h2 in
      (k ∙ keeps4 c p, l ∙ keeps6 c p)
