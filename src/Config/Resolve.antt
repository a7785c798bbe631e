-- ===== src/Config/Resolve.antt =====
-- The effective settings of an instance (`resolve`, `applyGlobals`), and `AddInstance`.
use mathlib.Core.Option
use fortivpn_go.Prelude.{
  ℕ, Bool, true, false, not, ◌&&◌, ◌||◌, Option, none, some, List, [], ◌∷◌, ◌++◌, map, ltb, ◌==◌,
  if◌then◌else◌, Result, ok, err, ◌>>=◌, ◌>>◌, reject, pos, is_below, is_above, is_zero, Text,
  codes, text_eq,
}
use fortivpn_go.Config.{
  Config, Globals, Group, Instance, File, ConfigError, insecure_permissions, bad_protocol,
  bad_transport, unknown_group, bad_port, many_instances, no_such_instance, tcp_port_without_tcp,
  lookup_group, has_secrets, selector, find_instance,
}
use fortivpn_go.Config.Validate.{
  normalize, given, one_of, protocols, transports, validate_ip_mode, validate_structure, is_shared,
  validate_file,
}

-- `if value != nil { target = *value }`
abbrev pub override {ℓ} : {A : Type ℓ} → Option A → A → A
override none current = current
override (some a) current = a

unfoldable pub apply_globals : Config → Globals → Config
apply_globals c g = record c {
  insecure = override g.insecure c.insecure;
  ip_mode = override g.ip_mode c.ip_mode;
  timeout = override g.timeout c.timeout;
  browser = override g.browser c.browser;
  username = override g.username c.username;
  password = override g.password c.password;
  psk = override g.psk c.psk;
  protocol = override (Option.map normalize g.protocol) c.protocol;
  remote_id = override g.remote_id c.remote_id;
  transport = override (Option.map normalize g.transport) c.transport;
  tcp_port = override g.tcp_port c.tcp_port;
  socket = override g.socket c.socket;
}

unfoldable pub apply_bool : Option Bool → Config → Config
apply_bool b c = record c { saml = override b c.saml }

abbrev pub empty_config : Config
empty_config = record {
  gateway = [];
  port = pos 0;
  realm = [];
  username = [];
  password = [];
  psk = [];
  saml = false;
  ip_mode = [];
  browser = [];
  timeout = pos 0;
  insecure = false;
  protocol = [];
  remote_id = [];
  transport = [];
  tcp_port = pos 0;
  socket = [];
}

-- The instance that is meant where none is selected.
abbrev pub choose : List Instance → Text → Result ConfigError Text
choose (i ∷ []) [] = ok (selector i.group i.name)
choose _ [] = err many_instances
choose instances (c ∷ s) = ok (c ∷ s)

abbrev pub or_missing : {A : Type 0} → Option A → ConfigError → Result ConfigError A
or_missing none e = err e
or_missing (some a) e = ok a

abbrev pub apply_group : Group → Config → Config
apply_group g c = apply_bool g.saml (apply_globals c g.globals)

abbrev pub group_layer : List (Text × Group) → Text → Config → Result ConfigError Config
group_layer groups [] c = ok c
group_layer groups (x ∷ name) c = do
  g ← or_missing (lookup_group (x ∷ name) groups) unknown_group
  ok (apply_group g c)

abbrev pub apply_instance : Instance → Config → Config
apply_instance i c =
    let layered = apply_bool i.saml (apply_globals c i.globals) in
    record layered { gateway = i.gateway; realm = i.realm; port = override i.port layered.port }

abbrev pub check_port : Instance → Result ConfigError (Unit {0})
check_port i = given i.port (λ n. reject (is_below n 1 || is_above n 65535) bad_port)

-- The checks on the effective settings.
unfoldable pub check_config : Config → Result ConfigError (Unit {0})
check_config c = do
  validate_ip_mode c.ip_mode
  reject (not (one_of c.protocol protocols)) bad_protocol
  reject (not (one_of c.transport transports)) bad_transport
  reject (not (is_zero c.tcp_port) && not (text_eq c.transport (codes "tcp"))) tcp_port_without_tcp

unfoldable pub resolve : ℕ → File → Text → Result ConfigError Config
resolve perm f selected = do
  validate_file perm f
  chosen ← choose f.instances selected
  current ← or_missing (find_instance f.instances chosen) no_such_instance
  c ← group_layer f.groups current.group (apply_globals empty_config f.globals)
  check_port current
  check_config (apply_instance current c)
  ok (apply_instance current c)

-- `AddInstance` on the decoded file and its permissions: the file and the mode that it writes.
unfoldable pub add_instance : ℕ → File → Instance → Result ConfigError (File × ℕ)
add_instance perm f i = do
  reject (has_secrets f && is_shared perm) insecure_permissions
  let added : File = record f { instances = f.instances ++ (i ∷ []) }
  validate_structure added
  ok (added, if has_secrets added then 0x180 else perm)

-- `sort.Strings`
unfoldable pub text_le : Text → Text → Bool
text_le [] t = true
text_le (a ∷ s) [] = false
text_le (a ∷ s) (b ∷ t) = ltb a b || (a == b && text_le s t)

unfoldable pub insert_sorted : Text → List Text → List Text
insert_sorted t [] = t ∷ []
insert_sorted t (u ∷ rest) = if text_le t u then t ∷ u ∷ rest else u ∷ insert_sorted t rest

unfoldable pub sort_texts : List Text → List Text
sort_texts [] = []
sort_texts (t ∷ rest) = insert_sorted t (sort_texts rest)

-- `InstanceSelectors`
unfoldable pub instance_selectors : ℕ → File → Result ConfigError (List Text)
instance_selectors perm f = do
  validate_file perm f
  ok (sort_texts (map (λ (i : Instance). selector i.group i.name) f.instances))
