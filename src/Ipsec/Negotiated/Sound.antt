-- ===== src/Ipsec/Negotiated/Sound.antt =====
-- What the settings that `info` of internal/ipsec/state.go returns satisfy.
use mathlib.Core.Path.{subst}
use fortivpn_go.Prelude.{
  ℕ, ◌≡◌, refl, sym, ap, ◌∙◌, ◌⊎◌, inl, inr, Bool, true, false, not, ◌&&◌, ◌||◌, Option, none, some,
  List, [], ◌∷◌, arith, if◌then◌else◌, Bool-cases, ok, reject, >>=-eq-ok, >>-eq-ok, reject-ok,
  ok-injective, Text, codes, text_eq_iff, text_eq,
}
use fortivpn_go.Netip.{Addr, unset, v4, v6, AddrText}
use fortivpn_go.Network.{IpMode, Config, is_nil, no_items}
use fortivpn_go.Ipsec.Options.{Options}
use fortivpn_go.Ipsec.Vici.{Message, text, list, subsection}
use fortivpn_go.Ipsec.Negotiated.{
  not_esp_tunnel, local_mismatch, missing_remotes, Info, empty_config, loopback_text, is_dual,
  is_ipv4_mode, child_name, child_selectors, find_child, add_vip, add_vips, check_families,
  vip_text, matches_vip, check_child, child_found, check_children, children_found, check_sa,
  is_established, check_found, info,
}
use fortivpn_go.Ipsec.Negotiated.Remotes.{HasRoutes, add_remotes-HasRoutes, add_remotes-keeps}

pub record HasFamilies (o : Options) (c : Config) : Type 0 where
  pub has4 : is_nil c.ipv4_config ≡ false
  pub mode6 :
      ((is_dual o.ip_mode ≡ true) × (is_nil c.ipv6_config ≡ false))
      ⊎ ((is_ipv4_mode o.ip_mode ≡ true) × (is_nil c.ipv6_config ≡ true))
      ⊎ ((is_dual o.ip_mode ≡ false) × (is_ipv4_mode o.ip_mode ≡ false))

module _ (net : AddrText) (o : Options) (relayed : Bool) where
  check_child-HasRoutes :
      (six : Bool) (c c' : Config) (child : Message)
      → HasRoutes o c
      → check_child net o relayed six c child ≡ ok c'
      → HasRoutes o c' × (c'.ipv4_config ≡ c.ipv4_config) × (c'.ipv6_config ≡ c.ipv6_config)
  unfolding check_child
  check_child-HasRoutes six c c' child r h =
      let local = vip_text net o relayed (if six then c.ipv6_config else c.ipv4_config) in
      let a =
        >>-eq-ok
          (reject
            (not (text_eq (text child (codes "mode")) (codes "TUNNEL"))
              || not (text_eq (text child (codes "protocol")) (codes "ESP"))
              || not (text_eq (text child (codes "encap")) (codes "yes")))
            not_esp_tunnel)
          _ h in
      let b =
        >>-eq-ok
          (reject (not (matches_vip net o relayed (list child (codes "local-ts")) local))
            local_mismatch)
          _ a.1 in
      let d = >>-eq-ok (reject (no_items (list child (codes "remote-ts"))) missing_remotes) _ b.1 in
      let (k4, k6) =
        add_remotes-keeps net o relayed six c c' (list child (codes "remote-ts")) d.1 in
      (add_remotes-HasRoutes net o relayed six c c' (list child (codes "remote-ts")) r d.1, k4, k6)

  child_found-HasRoutes :
      (six : Bool) (c c' : Config) (child : Option Message)
      → HasRoutes o c
      → child_found net o relayed six c child ≡ ok c'
      → HasRoutes o c' × (c'.ipv4_config ≡ c.ipv4_config) × (c'.ipv6_config ≡ c.ipv6_config)
  child_found-HasRoutes six c c' none r h = cc
  child_found-HasRoutes six c c' (some child) r h = check_child-HasRoutes six c c' child r h

  check_children-HasRoutes :
      (name : Text) (children : Message) (c c' : Config) (asked : List (ℕ × Bool))
      → HasRoutes o c
      → check_children net o relayed name children c asked ≡ ok c'
      → HasRoutes o c' × (c'.ipv4_config ≡ c.ipv4_config) × (c'.ipv6_config ≡ c.ipv6_config)
  unfolding check_children
  check_children-HasRoutes name children c c' [] r h =
      let e = ok-injective c c' h in (subst (HasRoutes o) e r, rw e refl, rw e refl)
  check_children-HasRoutes name children c c' ((i, six) ∷ rest) r h =
      let child = find_child (child_name name i) children in
      let (d, a, h1) = >>=-eq-ok (child_found net o relayed six c child) _ h in
      let (s, k4, k6) = child_found-HasRoutes six c d child r a in
      let (s', l4, l6) = check_children-HasRoutes name children d c' rest s h1 in
      (s', l4 ∙ k4, l6 ∙ k6)

  children_found-HasRoutes :
      (name : Text) (c c' : Config) (children : Option Message)
      → HasRoutes o c
      → children_found net o relayed name c children ≡ ok c'
      → HasRoutes o c' × (c'.ipv4_config ≡ c.ipv4_config) × (c'.ipv6_config ≡ c.ipv6_config)
  children_found-HasRoutes name c c' none r h = cc
  children_found-HasRoutes name c c' (some children) r h =
      check_children-HasRoutes name children c c' (child_selectors o.ip_mode) r h

  add_vip-keeps :
      (c c' : Config) (a : Option Addr)
      → add_vip net o relayed c a ≡ ok c'
      → (c'.routes4 ≡ c.routes4) × (c'.routes6 ≡ c.routes6)
  unfolding add_vip
  add_vip-keeps c c' none h = cc
  add_vip-keeps c c' (some unset) h = cc
  add_vip-keeps c c' (some (v4 a)) h = ground (arith, h)
  add_vip-keeps c c' (some (v6 a z)) h = ground (arith, h)

  add_vips-keeps :
      (c c' : Config) (raws : List Text)
      → add_vips net o relayed c raws ≡ ok c'
      → (c'.routes4 ≡ c.routes4) × (c'.routes6 ≡ c.routes6)
  unfolding add_vips
  add_vips-keeps c c' [] h = let e = ok-injective c c' h in (rw e refl, rw e refl)
  add_vips-keeps c c' (raw ∷ rest) h =
      let (d, a, h1) = >>=-eq-ok (add_vip net o relayed c (net.parse_addr raw)) _ h in
      let (k4, k6) = add_vip-keeps c d (net.parse_addr raw) a in
      let (l4, l6) = add_vips-keeps d c' rest h1 in (l4 ∙ k4, l6 ∙ k6)

  families-test :
      (m : IpMode) (n4 n6 : Bool)
      → (n4 || (is_dual m && n6)) ≡ false
      → (is_ipv4_mode m && not n6) ≡ false
      → (n4 ≡ false)
        × (((is_dual m ≡ true) × (n6 ≡ false))
            ⊎ ((is_ipv4_mode m ≡ true) × (n6 ≡ true))
            ⊎ ((is_dual m ≡ false) × (is_ipv4_mode m ≡ false)))
  families-test m n4 n6 h k = ground (arith, h, k)

  check_families-HasFamilies :
      (c : Config) → check_families net o relayed c ≡ ok tt → HasFamilies o c
  unfolding check_families
  check_families-HasFamilies c h =
      let (a, b) = >>-eq-ok (reject _ _) _ h in
      let (k, l) =
        families-test o.ip_mode (is_nil c.ipv4_config) (is_nil c.ipv6_config) (reject-ok _ _ a)
          (reject-ok _ _ b) in
      record { has4 = k; mode6 = l }

  -- The established SA of that name in one of the daemon's messages, with the peer that was asked for.
  pub record IsPeer (name : Text) (m sa : Message) : Type 0 where
    pub named : subsection m name ≡ some sa
    pub established : text sa (codes "state") ≡ codes "ESTABLISHED"
    pub remote_id : text sa (codes "remote-id") ≡ o.remote_id
    pub remote_host :
        text sa (codes "remote-host")
        ≡ (if relayed then loopback_text else net.addr_string o.gateway)

  abbrev pub HasPeer : Text → List Message → Type 0
  HasPeer name [] = ⊥
  HasPeer name (m ∷ rest) = ((sa : Message) × IsPeer name m sa) ⊎ HasPeer name rest

  empty-HasRoutes : (c : Config) → (c.routes4 ≡ []) × (c.routes6 ≡ []) → HasRoutes o c
  empty-HasRoutes c (e4, e6) = record {
    all4 = rw e4 tt;
    all6 = rw e6 tt;
    distinct4 = rw e4 tt;
    distinct6 = rw e6 tt;
    few = rw (e4, e6) (omega arith);
  }

  peer-test :
      (a b c d : Text) → (not (text_eq a b) || not (text_eq c d)) ≡ false → (a ≡ b) × (c ≡ d)
  peer-test a b c d h = ground (arith, h, text_eq_iff a b, text_eq_iff c d)

  HasFamilies-keeps :
      (c c' : Config)
      → HasFamilies o c
      → (c'.ipv4_config ≡ c.ipv4_config)
      → (c'.ipv6_config ≡ c.ipv6_config)
      → HasFamilies o c'
  HasFamilies-keeps c c' f e4 e6 = record { has4 = rw e4 f.has4; mode6 = rw e6 f.mode6 }

  check_sa_sound :
      (name : Text) (sa : Message) (i : Info)
      → check_sa net o relayed name sa ≡ ok i
      → (text sa (codes "remote-id") ≡ o.remote_id)
        × (text sa (codes "remote-host")
            ≡ (if relayed then loopback_text else net.addr_string o.gateway))
        × (i.gateway ≡ net.addr_string o.gateway)
        × HasFamilies o i.config
        × HasRoutes o i.config
  unfolding check_sa
  check_sa_sound name sa i h =
      let (a, h1) = >>-eq-ok (reject _ _) _ h in
      let (c, b, h2) =
        >>=-eq-ok (add_vips net o relayed empty_config (list sa (codes "local-vips"))) _ h1 in
      let (f, h3) = >>-eq-ok (check_families net o relayed c) _ h2 in
      let (d, g, h4) =
        >>=-eq-ok (children_found net o relayed name c (subsection sa (codes "child-sas"))) _ h3 in
      let (p, q) =
        peer-test (text sa (codes "remote-id")) o.remote_id (text sa (codes "remote-host"))
          (if relayed then loopback_text else net.addr_string o.gateway) (reject-ok _ _ a) in
      let e = empty-HasRoutes c (add_vips-keeps empty_config c (list sa (codes "local-vips")) b) in
      let (r, k4, k6) = children_found-HasRoutes name c d (subsection sa (codes "child-sas")) e g in
      let i' : Info = record { gateway = net.addr_string o.gateway; config = d } in
      let w = ok-injective i' i h4 in
      (
        p,
        q,
        ap (λ x. x.gateway) (sym w),
        subst (λ x. HasFamilies o x.config) w
            (HasFamilies-keeps c d (check_families-HasFamilies c f) k4 k6),
        subst (λ x. HasRoutes o x.config) w r,
      )

  info_found :
      (name : Text) (m sa : Message) (i : Info)
      → subsection m name ≡ some sa
      → is_established net o relayed (some sa) ≡ true
      → check_sa net o relayed name sa ≡ ok i
      → IsPeer name m sa
        × (i.gateway ≡ net.addr_string o.gateway)
        × HasFamilies o i.config
        × HasRoutes o i.config
  info_found name m sa i e s h =
      let (p, q, g, f, r) = check_sa_sound name sa i h in
      (
        record {
          named = e;
          established = (text_eq_iff (text sa (codes "state")) (codes "ESTABLISHED")).0 s;
          remote_id = p;
          remote_host = q;
        },
        g,
        f,
        r,
      )

  abbrev pub IsSound : Info → Type 0
  IsSound i =
      (i.gateway ≡ net.addr_string o.gateway) × HasFamilies o i.config × HasRoutes o i.config

  -- One round of the loop: the SA decides, or the rest of the messages do.
  info_step :
      (name : Text) (m : Message) (rest : List Message) (s : Option Message) (i : Info)
      → subsection m name ≡ s
      → (if is_established net o relayed s
          then check_found net o relayed name s
          else info net o relayed name rest)
        ≡ ok i
      → (info net o relayed name rest ≡ ok i) ⊎ (((sa : Message) × IsPeer name m sa) × IsSound i)
  info_step name m rest none i e h = inl h
  info_step name m rest (some sa) i e h =
      elim (Bool-cases (is_established net o relayed (some sa))) [
        | inl s ↦
            let (p, q, f, r) = info_found name m sa i e s (rw s at h) in inr ((sa, p), (q, f, r))
        | inr s ↦ inl (rw s at h)
      ]

  -- When `info` succeeds, the daemon reported an established SA of that name whose peer has the
  -- configured identity, at the gateway's address or, through the relay, the loopback address.
  -- The settings carry the gateway's address, an IPv4 address, and an IPv6 address exactly as
  -- the mode asks. There are at most 32 routes, none twice, each a prefix at its network's
  -- address that is not IPv4-mapped or multicast; and unless it is a default route, an IPv4 one
  -- keeps the gateway, and under TCP the loopback address of the relay, out of the tunnel.
  pub info-IsSound :
      (name : Text) (messages : List Message) (i : Info)
      → info net o relayed name messages ≡ ok i
      → HasPeer name messages × IsSound i
  unfolding info
  info-IsSound name [] i h = cc
  info-IsSound name (m ∷ rest) i h = elim (info_step name m rest (subsection m name) i refl h) [
    | inl k ↦ let (p, q) = info-IsSound name rest i k in (inr p, q)
    | inr (p, q) ↦ (inl p, q)
  ]
