-- ===== src/Config/Lookup.antt =====
-- Selectors name instances, and what the checks on the effective settings give.
use fortivpn_go.Prelude.{
  ℕ, ◌≡◌, refl, ◌⊎◌, inl, inr, Bool, true, false, not, ◌&&◌, ◌||◌, Option, none, some, List, [],
  ◌∷◌, ◌++◌, arith, ok, reject, >>-eq-ok, reject-ok, ℤ, pos, is_below, is_above, is_zero, InRange,
  range_test, Text, codes, is_empty, text_eq_refl, text_eq_iff, trim_space, contains_rune,
}
use fortivpn_go.Config.{
  Config, Group, Instance, File, no_instances, bad_protocol, bad_transport, unnamed_instance,
  slash_in_name, unknown_group, duplicate_instance, bad_port, slash, lookup_group, selector,
  find_instance,
}
use fortivpn_go.Config.Validate.{
  given, one_of, protocols, transports, validate_ip_mode, validate_level, validate_groups, is_known,
  validate_instance, validate_instances, none_listed, validate_structure,
}
use fortivpn_go.Config.Resolve.{override, check_port, check_config, resolve}
use fortivpn_go.Config.Precedence.{resolve-Resolves, Resolves-IsEffective}

abbrev pub selector_of : Instance → Text
selector_of i = selector i.group i.name

-- The check of an instance found no earlier instance with its selector.
validate_instance-fresh :
    (groups : List (Text × Group)) (seen : List Text) (i : Instance)
    → validate_instance groups seen i ≡ ok tt
    → one_of (selector_of i) seen ≡ false
unfolding validate_instance
validate_instance-fresh groups seen i h =
    let (_, h1) = >>-eq-ok (reject (is_empty (trim_space i.name)) unnamed_instance) _ h in
    let (_, h2) =
      >>-eq-ok (reject (contains_rune slash i.name || contains_rune slash i.group) slash_in_name) _
        h1 in
    let (_, h3) =
      >>-eq-ok
        (reject (not (is_empty i.group) && not (is_known (lookup_group i.group groups)))
          unknown_group)
        _ h2 in
    let (fresh, _) = >>-eq-ok (reject (one_of (selector_of i) seen) duplicate_instance) _ h3 in
    reject-ok _ _ fresh

validate_instances-fresh :
    (groups : List (Text × Group)) (seen : List Text) (before : List Instance) (i : Instance)
    (after : List Instance)
    → validate_instances groups seen (before ++ (i ∷ after)) ≡ ok tt
    → (one_of (selector_of i) seen ≡ false)
      × (find_instance (before ++ (i ∷ after)) (selector_of i) ≡ some i)
unfolding validate_instances find_instance
validate_instances-fresh groups seen [] i after h =
    let (first, _) = >>-eq-ok (validate_instance groups seen i) _ h in
    (validate_instance-fresh groups seen i first, rw (text_eq_refl (selector_of i)))
validate_instances-fresh groups seen (j ∷ before) i after h =
    let (_, rest) = >>-eq-ok (validate_instance groups seen j) _ h in
    ground (
      arith,
      validate_instances-fresh groups (selector_of j ∷ seen) before i after rest,
      text_eq_iff (selector_of j) (selector_of i),
      text_eq_refl (selector_of i),
    )

structure-instances :
    (f : File) → validate_structure f ≡ ok tt → validate_instances f.groups [] f.instances ≡ ok tt
unfolding validate_structure
structure-instances f h =
    let (_, h1) = >>-eq-ok (reject (none_listed f.instances) no_instances) _ h in
    let (_, h2) = >>-eq-ok (validate_level f.globals) _ h1 in
    let (_, h3) = >>-eq-ok (validate_groups f.groups) _ h2 in h3

-- In a file that passes validation the selector of each instance finds that instance, whatever
-- stands before and behind it.
pub find-selector_of :
    (f : File) (before : List Instance) (i : Instance) (after : List Instance)
    → validate_structure f ≡ ok tt
    → f.instances ≡ before ++ (i ∷ after)
    → find_instance f.instances (selector_of i) ≡ some i
find-selector_of f before i after h e =
    rw e
      ((validate_instances-fresh f.groups [] before i after (rw e at (structure-instances f h))).1)

-- What the code accepts as a protocol and as a transport.
abbrev pub IsProtocol : Text → Type 0
IsProtocol t = (t ≡ codes "") ⊎ (t ≡ codes "sslvpn") ⊎ (t ≡ codes "ipsec")

abbrev pub IsTransport : Text → Type 0
IsTransport t = (t ≡ codes "") ⊎ (t ≡ codes "udp") ⊎ (t ≡ codes "tcp")

one_of-protocols : (t : Text) → one_of t protocols ≡ true → IsProtocol t
one_of-protocols t h =
    ground (
      arith,
      text_eq_iff t (codes ""),
      text_eq_iff t (codes "sslvpn"),
      text_eq_iff t (codes "ipsec"),
    )

one_of-transports : (t : Text) → one_of t transports ≡ true → IsTransport t
one_of-transports t h =
    ground
      (arith, text_eq_iff t (codes ""), text_eq_iff t (codes "udp"), text_eq_iff t (codes "tcp"))

not-false : (b : Bool) → not b ≡ false → b ≡ true
not-false b h = ground arith

needs_tcp : (a b : Bool) → a ≡ false → (not a && not b) ≡ false → b ≡ true
needs_tcp a b h k = ground arith

check_config-ok :
    (c : Config)
    → check_config c ≡ ok tt
    → IsProtocol c.protocol
      × IsTransport c.transport
      × (is_zero c.tcp_port ≡ false → c.transport ≡ codes "tcp")
unfolding check_config
check_config-ok c h =
    let (_, h1) = >>-eq-ok (validate_ip_mode c.ip_mode) _ h in
    let (protocol, h2) = >>-eq-ok (reject (not (one_of c.protocol protocols)) bad_protocol) _ h1 in
    let (transport, port) =
      >>-eq-ok (reject (not (one_of c.transport transports)) bad_transport) _ h2 in
    (
      one_of-protocols c.protocol (not-false _ (reject-ok _ _ protocol)),
      one_of-transports c.transport (not-false _ (reject-ok _ _ transport)),
      λ z. (text_eq_iff c.transport (codes "tcp")).0 (needs_tcp _ _ z (reject-ok _ _ port)),
    )

-- The port of an effective configuration: absent, or a port number.
abbrev pub IsPort : ℤ → Type 0
IsPort n = (n ≡ pos 0) ⊎ InRange 1 65535 n

check_port-IsPort : (i : Instance) → check_port i ≡ ok tt → IsPort (override i.port (pos 0))
check_port-IsPort i h = go i.port h
  where
    go :
        (o : Option ℤ)
        → given o (λ n. reject (is_below n 1 || is_above n 65535) bad_port) ≡ ok tt
        → IsPort (override o (pos 0))
    go none e = inl refl
    go (some n) e = inr (range_test 1 65535 n (reject-ok _ _ e))

-- What a successful `resolve` promises of the effective settings: the port is 0 (not given) or
-- between 1 and 65535, the protocol is empty, sslvpn or ipsec, the transport is empty, udp or tcp,
-- and a TCP port is set only with the transport tcp.
pub resolve-IsChecked :
    (perm : ℕ) (f : File) (selected : Text) (c : Config)
    → resolve perm f selected ≡ ok c
    → IsPort c.port
      × IsProtocol c.protocol
      × IsTransport c.transport
      × (is_zero c.tcp_port ≡ false → c.transport ≡ codes "tcp")
resolve-IsChecked perm f selected c h =
    let r = resolve-Resolves perm f selected c h in
    let e = Resolves-IsEffective r in
    let (protocol, transport, tcp) = check_config-ok c (rw (← r.effective) at r.checked) in
    (rw e.port (check_port-IsPort r.current r.port_checked), protocol, transport, tcp)
