-- ===== src/Config/Precedence.antt =====
-- Which level of the file a setting comes from, and what holds of the effective settings.
use mathlib.Core.Option
use mathlib.Core.Path.{subst}
use fortivpn_go.Prelude.{
  ℕ, ◌≡◌, refl, sym, ap, ◌∙◌, inl, inr, Bool, false, Option, none, some, List, [], ◌∷◌, arith,
  if◌then◌else◌, Option-cases, ok, >>=-eq-ok, >>-eq-ok, pos, Text, is_empty,
}
use fortivpn_go.Config.{
  Config, Globals, Group, Instance, File, ConfigError, no_such_instance, lookup_group,
  find_instance,
}
use fortivpn_go.Config.Validate.{normalize, validate_file}
use fortivpn_go.Config.Resolve.{
  override, apply_globals, apply_bool, empty_config, choose, or_missing, apply_group, group_layer,
  apply_instance, check_port, check_config, resolve,
}

-- A successful `resolve`, step by step.
pub record Resolves (perm : ℕ) (f : File) (selected : Text) (c : Config) : Type 0 where
  pub chosen : Text
  pub current : Instance
  pub layered : Config
  pub valid : validate_file perm f ≡ ok tt
  pub chose : choose f.instances selected ≡ ok chosen
  pub found : find_instance f.instances chosen ≡ some current
  pub grouped :
      group_layer f.groups current.group (apply_globals empty_config f.globals) ≡ ok layered
  pub port_checked : check_port current ≡ ok tt
  pub checked : check_config (apply_instance current layered) ≡ ok tt
  pub effective : c ≡ apply_instance current layered

or_missing-ok :
    {A : Type 0} (o : Option A) (e : ConfigError) (a : A) → or_missing o e ≡ ok a → o ≡ some a
or_missing-ok none e a h = cc
or_missing-ok (some b) e a h = ground arith

pub resolve-Resolves :
    (perm : ℕ) (f : File) (selected : Text) (c : Config)
    → resolve perm f selected ≡ ok c
    → Resolves perm f selected c
unfolding resolve
resolve-Resolves perm f selected c h =
    let (valid, h1) = >>-eq-ok (validate_file perm f) _ h in
    let (chosen, chose, h2) = >>=-eq-ok (choose f.instances selected) _ h1 in
    let (current, found, h3) =
      >>=-eq-ok (or_missing (find_instance f.instances chosen) no_such_instance) _ h2 in
    let (layered, grouped, h4) =
      >>=-eq-ok (group_layer f.groups current.group (apply_globals empty_config f.globals)) _ h3 in
    let (port, h5) = >>-eq-ok (check_port current) _ h4 in
    let (checked, h6) = >>-eq-ok (check_config (apply_instance current layered)) _ h5 in
    record {
      chosen = chosen;
      current = current;
      layered = layered;
      valid = valid;
      chose = chose;
      found = or_missing-ok _ _ _ found;
      grouped = grouped;
      port_checked = port;
      checked = checked;
      effective = ground arith;
    }

-- The first value that is given, in the order of the list.
abbrev pub pick {ℓ} : {A : Type ℓ} → List (Option A) → A → A
pick [] d = d
pick (none ∷ rest) d = pick rest d
pick (some a ∷ rest) d = a

-- The group of an instance, where it names one.
abbrev pub group_of : File → Instance → Option Group
group_of f i = if is_empty i.group then none else lookup_group i.group f.groups

abbrev pub group_setting {ℓ} : {A : Type ℓ} → (Globals → Option A) → Option Group → Option A
group_setting field none = none
group_setting field (some g) = field g.globals

abbrev pub group_saml : Option Group → Option Bool
group_saml none = none
group_saml (some g) = g.saml

-- The value of a setting: the instance's, else its group's, else the global one, else `d`.
abbrev pub layered_value {ℓ} :
    {A : Type ℓ} → (Globals → Option A) → Globals → Option Group → Instance → A → A
layered_value field globals o i d =
    pick (field i.globals ∷ group_setting field o ∷ field globals ∷ []) d

pub record IsEffective (globals : Globals) (o : Option Group) (i : Instance) (c : Config)
    : Type 0 where
  pub insecure : c.insecure ≡ layered_value (λ g. g.insecure) globals o i false
  pub ip_mode : c.ip_mode ≡ layered_value (λ g. g.ip_mode) globals o i []
  pub timeout : c.timeout ≡ layered_value (λ g. g.timeout) globals o i (pos 0)
  pub browser : c.browser ≡ layered_value (λ g. g.browser) globals o i []
  pub username : c.username ≡ layered_value (λ g. g.username) globals o i []
  pub password : c.password ≡ layered_value (λ g. g.password) globals o i []
  pub psk : c.psk ≡ layered_value (λ g. g.psk) globals o i []
  pub protocol : c.protocol ≡ layered_value (λ g. Option.map normalize g.protocol) globals o i []
  pub remote_id : c.remote_id ≡ layered_value (λ g. g.remote_id) globals o i []
  pub transport : c.transport ≡ layered_value (λ g. Option.map normalize g.transport) globals o i []
  pub tcp_port : c.tcp_port ≡ layered_value (λ g. g.tcp_port) globals o i (pos 0)
  pub socket : c.socket ≡ layered_value (λ g. g.socket) globals o i []
  pub saml : c.saml ≡ pick (i.saml ∷ group_saml o ∷ []) false
  pub gateway : c.gateway ≡ i.gateway
  pub realm : c.realm ≡ i.realm
  pub port : c.port ≡ override i.port (pos 0)

-- The group layer with the group named by `o`.
abbrev with_group : Option Group → Config → Config
with_group none c = c
with_group (some g) c = apply_group g c

group_layer-with_group :
    (f : File) (i : Instance) (c d : Config)
    → group_layer f.groups i.group c ≡ ok d
    → d ≡ with_group (group_of f i) c
group_layer-with_group f i c d h = go i.group h
  where
    go :
        (name : Text)
        → group_layer f.groups name c ≡ ok d
        → d ≡ with_group (if is_empty name then none else lookup_group name f.groups) c
    go [] e = ground arith
    go (x ∷ name) e = elim (Option-cases (lookup_group (x ∷ name) f.groups)) [
      | inl n ↦ absurd (ground arith)
      | inr (g, n) ↦ rw n (ground arith)
    ]

pick-override {ℓ} :
    {A : Type ℓ} (a b c : Option A) (d : A)
    → override a (override b (override c d)) ≡ pick (a ∷ b ∷ c ∷ []) d
pick-override (some x) b c d = refl
pick-override none (some x) c d = refl
pick-override none none (some x) d = refl
pick-override none none none d = refl

pick-saml : (a b : Option Bool) → override a (override b false) ≡ pick (a ∷ b ∷ []) false
pick-saml (some x) b = refl
pick-saml none (some x) = refl
pick-saml none none = refl

layers-IsEffective :
    (globals : Globals) (o : Option Group) (i : Instance)
    → IsEffective globals o i (apply_instance i (with_group o (apply_globals empty_config globals)))
unfolding apply_globals apply_bool
layers-IsEffective globals none i = record {
  insecure = pick-override i.globals.insecure none globals.insecure false;
  ip_mode = pick-override i.globals.ip_mode none globals.ip_mode [];
  timeout = pick-override i.globals.timeout none globals.timeout (pos 0);
  browser = pick-override i.globals.browser none globals.browser [];
  username = pick-override i.globals.username none globals.username [];
  password = pick-override i.globals.password none globals.password [];
  psk = pick-override i.globals.psk none globals.psk [];
  protocol =
      pick-override (Option.map normalize i.globals.protocol) none
        (Option.map normalize globals.protocol) [];
  remote_id = pick-override i.globals.remote_id none globals.remote_id [];
  transport =
      pick-override (Option.map normalize i.globals.transport) none
        (Option.map normalize globals.transport) [];
  tcp_port = pick-override i.globals.tcp_port none globals.tcp_port (pos 0);
  socket = pick-override i.globals.socket none globals.socket [];
  saml = pick-saml i.saml none;
  gateway = refl;
  realm = refl;
  port = refl;
}
layers-IsEffective globals (some g) i = record {
  insecure = pick-override i.globals.insecure g.globals.insecure globals.insecure false;
  ip_mode = pick-override i.globals.ip_mode g.globals.ip_mode globals.ip_mode [];
  timeout = pick-override i.globals.timeout g.globals.timeout globals.timeout (pos 0);
  browser = pick-override i.globals.browser g.globals.browser globals.browser [];
  username = pick-override i.globals.username g.globals.username globals.username [];
  password = pick-override i.globals.password g.globals.password globals.password [];
  psk = pick-override i.globals.psk g.globals.psk globals.psk [];
  protocol =
      pick-override (Option.map normalize i.globals.protocol)
        (Option.map normalize g.globals.protocol) (Option.map normalize globals.protocol) [];
  remote_id = pick-override i.globals.remote_id g.globals.remote_id globals.remote_id [];
  transport =
      pick-override (Option.map normalize i.globals.transport)
        (Option.map normalize g.globals.transport) (Option.map normalize globals.transport) [];
  tcp_port = pick-override i.globals.tcp_port g.globals.tcp_port globals.tcp_port (pos 0);
  socket = pick-override i.globals.socket g.globals.socket globals.socket [];
  saml = pick-saml i.saml g.saml;
  gateway = refl;
  realm = refl;
  port = refl;
}

pub Resolves-IsEffective :
    {perm : ℕ} {f : File} {selected : Text} {c : Config} (r : Resolves perm f selected c)
    → IsEffective f.globals (group_of f r.current) r.current c
Resolves-IsEffective {f} r =
    subst (IsEffective f.globals (group_of f r.current) r.current)
      (sym (
        r.effective
        ∙ ap (apply_instance r.current) (group_layer-with_group f r.current _ _ r.grouped)))
      (layers-IsEffective f.globals (group_of f r.current) r.current)

-- When `resolve` succeeds, the file passed its validation, the selected instance (the only one, if
-- none is selected) is in it, and every setting is the instance's value where it gives one, else
-- its group's, else the global one, else the zero value; SAML is never global; protocol and
-- transport are lower-cased and trimmed; gateway, realm and port are the instance's own.
pub resolve-IsEffective :
    (perm : ℕ) (f : File) (selected : Text) (c : Config)
    → resolve perm f selected ≡ ok c
    → (chosen : Text) × (i : Instance) × (validate_file perm f ≡ ok tt)
      × (choose f.instances selected ≡ ok chosen)
      × (find_instance f.instances chosen ≡ some i)
      × IsEffective f.globals (group_of f i) i c
resolve-IsEffective perm f selected c h =
    let r = resolve-Resolves perm f selected c h in
    (r.chosen, r.current, r.valid, r.chose, r.found, Resolves-IsEffective r)
