-- ===== src/Tun/Applied.antt =====
-- What `Configure` of internal/tun/tun_linux.go runs.
use mathlib.Core.Path.{subst}
use mathlib.Core.List.{append_assoc, append-nil}
use fortivpn_go.Prelude.{
  ◌≡◌, refl, sym, ap, ◌∙◌, ◌⊎◌, inl, inr, Bool, true, false, not, ◌||◌, Option, none, some, List,
  [], ◌∷◌, ◌++◌, arith, if◌then◌else◌, Bool-cases, ||-false, Result, err, ok, reject, reject-ok,
  >>-eq-ok, ℤ, is_below, is_above, InRange, range_test, Text, codes,
}
use fortivpn_go.Netip.{Addr, addr_is_valid, is4, is6, prefix_is_valid, AddrText}
use fortivpn_go.Network.{IpConfig}
use fortivpn_go.Tun.{
  TunConfig, TunError, bad_mtu, bad_ipv4, is_wrong, validate_config, Argv, System, Ran, then_run,
  after_valid, run_command,
}

-- What ran of a list of commands after `before`: all of it after a success; after an error a front
-- of it, whose last command failed.
abbrev pub HasRunCommands : System → (before cs : List Argv) → Ran → Type 0
HasRunCommands system before cs (ok u, ran) = ran ≡ before ++ cs
HasRunCommands system before cs (err e, ran) =
    (front : List Argv) × (c : Argv) × (rest : List Argv) × (cs ≡ front ++ (c ∷ rest))
    × (ran ≡ before ++ (front ++ (c ∷ [])))
    × (system (before ++ front) c ≡ false)

-- A family's settings, where there are any, hold a valid prefix of the family.
abbrev pub IsOfFamily : (Addr → Bool) → Option IpConfig → Type 0
IsOfFamily family none = Unit {0}
IsOfFamily family (some ip) = (prefix_is_valid ip.address ≡ true) × (family ip.address.addr ≡ true)

is_wrong-IsOfFamily :
    (family : Addr → Bool) (ip : Option IpConfig)
    → is_wrong family ip ≡ false
    → IsOfFamily family ip
is_wrong-IsOfFamily family none h = tt
is_wrong-IsOfFamily family (some ip) h =
    let (a, b) = ||-false (not (prefix_is_valid ip.address)) (not (family ip.address.addr)) h in
    (ground (arith, a), ground (arith, b))

abbrev pub IsValidConfig : TunConfig → Type 0
IsValidConfig c = InRange 0 65535 c.mtu × IsOfFamily is4 c.ipv4 × IsOfFamily is6 c.ipv6

pub validate_config-IsValidConfig : (c : TunConfig) → validate_config c ≡ ok tt → IsValidConfig c
unfolding validate_config
validate_config-IsValidConfig c h =
    let (a, h1) = >>-eq-ok (reject (is_below c.mtu 0 || is_above c.mtu 65535) bad_mtu) _ h in
    let (b, d) = >>-eq-ok (reject (is_wrong is4 c.ipv4) bad_ipv4) _ h1 in
    (
      range_test 0 65535 c.mtu (reject-ok _ _ a),
      is_wrong-IsOfFamily is4 c.ipv4 (reject-ok _ _ b),
      is_wrong-IsOfFamily is6 c.ipv6 (reject-ok _ _ d),
    )

-- Settings that are refused run nothing; others are valid, and their commands run.
abbrev pub HasConfigured : System → (TunConfig → List Argv) → TunConfig → Ran → Type 0
HasConfigured system commands c r =
    (IsValidConfig c × HasRunCommands system [] (commands c) r)
    ⊎ ((e : TunError) × (validate_config c ≡ err e) × (r ≡ (err e, [])))

pub after_valid-HasConfigured :
    (system : System) (commands : TunConfig → List Argv) (c : TunConfig)
    (v : Result TunError (Unit {0})) (r : Ran)
    → validate_config c ≡ v
    → HasRunCommands system [] (commands c) r
    → HasConfigured system commands c (after_valid v r)
after_valid-HasConfigured system commands c (ok u) r e h =
    inl (validate_config-IsValidConfig c e, h)
after_valid-HasConfigured system commands c (err e) r k h = inr (e, k, refl)

-- A step that runs these commands, wherever it starts.
abbrev pub Runs : System → List Argv → (List Argv → Ran) → Type 0
Runs system cs step = (before : List Argv) → HasRunCommands system before cs (step before)

pub none-Runs : (system : System) → Runs system [] (λ ran. (ok tt, ran))
none-Runs system before = sym (append-nil before)

later-HasRunCommands :
    (system : System) (before cs ds : List Argv) (r : Ran)
    → HasRunCommands system (before ++ cs) ds r
    → HasRunCommands system before (cs ++ ds) r
later-HasRunCommands system before cs ds (ok u, ran) h = h ∙ append_assoc before cs ds
later-HasRunCommands system before cs ds (err e, ran) (front, c, rest, p, q, f) = (
  cs ++ front,
  c,
  rest,
  rw p (sym (append_assoc cs front (c ∷ rest))),
  q
      ∙ append_assoc before cs (front ++ (c ∷ []))
      ∙ ap (λ l. before ++ l) (sym (append_assoc cs front (c ∷ []))),
  rw (← append_assoc before cs front) f,
)

then_run-HasRunCommands :
    (system : System) (cs ds before : List Argv) (r : Ran) (next : List Argv → Ran)
    → HasRunCommands system before cs r
    → Runs system ds next
    → HasRunCommands system before (cs ++ ds) (then_run r next)
then_run-HasRunCommands system cs ds before (ok u, ran) next h k =
    later-HasRunCommands system before cs ds (next ran)
      (subst (λ l. HasRunCommands system l ds (next ran)) h (k ran))
then_run-HasRunCommands system cs ds before (err e, ran) next (front, c, rest, p, q, f) k =
    (front, c, rest ++ ds, rw p (append_assoc front (c ∷ rest) ds), q, f)

pub then-Runs :
    (system : System) (cs ds : List Argv) (step next : List Argv → Ran)
    → Runs system cs step
    → Runs system ds next
    → Runs system (cs ++ ds) (λ ran. then_run (step ran) next)
then-Runs system cs ds step next h k before =
    then_run-HasRunCommands system cs ds before (step before) next (h before) k

module _ (system : System) (net : AddrText) (number : ℤ → Text) (name : Text) where
  pub run_command-Runs : (c : Argv) → Runs system (c ∷ []) (run_command system net number name c)
  unfolding run_command
  run_command-Runs c before = elim (Bool-cases (system before c)) [
    | inl h ↦ rw h refl
    | inr h ↦ rw h ([], c, [], refl, refl, rw append-nil h)
  ]

  -- The commands of each part of the settings, as they are meant.
  abbrev pub mtu_command : ℤ → List Argv
  mtu_command mtu =
      if is_above mtu 0
      then (codes "link" ∷ codes "set" ∷ codes "dev" ∷ name ∷ codes "mtu" ∷ number mtu ∷ []) ∷ []
      else []

  abbrev pub address_command : Text → Option IpConfig → List Argv
  address_command family none = []
  address_command family (some ip) =
      (if addr_is_valid ip.gateway
        then family
          ∷ codes "address"
          ∷ codes "add"
          ∷ net.prefix_string ip.address
          ∷ codes "peer"
          ∷ net.addr_string ip.gateway
          ∷ codes "dev"
          ∷ name
          ∷ []
        else family
          ∷ codes "address"
          ∷ codes "add"
          ∷ net.prefix_string ip.address
          ∷ codes "dev"
          ∷ name
          ∷ [])
      ∷ []

  abbrev pub linux_commands : TunConfig → List Argv
  linux_commands c =
      mtu_command c.mtu
      ++ (address_command (codes "-4") c.ipv4
          ++ (address_command (codes "-6") c.ipv6
              ++ ((codes "link" ∷ codes "set" ∷ codes "dev" ∷ name ∷ codes "up" ∷ []) ∷ [])))
