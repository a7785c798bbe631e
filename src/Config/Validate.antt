-- ===== src/Config/Validate.antt =====
-- The checks on a file: `validateFile`, `validateStructure` and what they call.
use fortivpn_go.Prelude.{
  ℕ, ◌%◌, Bool, true, false, not, ◌&&◌, ◌||◌, Option, none, some, List, [], ◌∷◌, ◌==◌, any, Result,
  ok, ◌>>◌, reject, ℤ, is_below, is_above, Text, codes, is_empty, text_eq, trim_space, to_lower,
  contains_rune,
}
use fortivpn_go.Config.{
  Globals, Group, Instance, File, ConfigError, insecure_permissions, no_instances, bad_ip_mode,
  bad_timeout, bad_protocol, bad_transport, bad_tcp_port, relative_socket, bad_group_name,
  unnamed_instance, slash_in_name, unknown_group, duplicate_instance, bad_port, slash, lookup_group,
  has_secrets, selector,
}

-- `strings.ToLower(strings.TrimSpace(s))`
unfoldable pub normalize : Text → Text
normalize t = to_lower (trim_space t)

-- A check on a pointer field: `if p != nil { … }`.
abbrev pub given :
    {A : Type 0} → Option A → (A → Result ConfigError (Unit {0})) → Result ConfigError (Unit {0})
given none check = ok tt
given (some a) check = check a

abbrev pub one_of : Text → List Text → Bool
one_of t ts = any (λ u. text_eq t u) ts

abbrev pub ip_modes : List Text
ip_modes =
    codes ""
    ∷ codes "auto"
    ∷ codes "ipv4"
    ∷ codes "ipv6"
    ∷ codes "dual"
    ∷ codes "dual-stack"
    ∷ codes "dualstack"
    ∷ []

abbrev pub protocols : List Text
protocols = codes "" ∷ codes "sslvpn" ∷ codes "ipsec" ∷ []

abbrev pub transports : List Text
transports = codes "" ∷ codes "udp" ∷ codes "tcp" ∷ []

unfoldable pub validate_ip_mode : Text → Result ConfigError (Unit {0})
validate_ip_mode t = reject (not (one_of (normalize t) ip_modes)) bad_ip_mode

abbrev pub validate_timeout : ℤ → Result ConfigError (Unit {0})
validate_timeout n = reject (is_below n 1) bad_timeout

-- `filepath.IsAbs` on Unix
abbrev pub is_abs : Text → Bool
is_abs [] = false
is_abs (c ∷ s) = c == slash

unfoldable pub validate_connection_settings : Globals → Result ConfigError (Unit {0})
validate_connection_settings g = do
  given g.protocol (λ t. reject (not (one_of (normalize t) protocols)) bad_protocol)
  given g.transport (λ t. reject (not (one_of (normalize t) transports)) bad_transport)
  given g.tcp_port (λ n. reject (is_below n 1 || is_above n 65535) bad_tcp_port)
  given g.socket (λ t. reject (not (is_empty t) && not (is_abs t)) relative_socket)

-- The three checks that each level of a file makes on its settings.
abbrev pub validate_level : Globals → Result ConfigError (Unit {0})
validate_level g = do
  given g.ip_mode validate_ip_mode
  given g.timeout validate_timeout
  validate_connection_settings g

unfoldable pub validate_groups : List (Text × Group) → Result ConfigError (Unit {0})
validate_groups [] = ok tt
validate_groups ((name, g) ∷ rest) = do
  reject (is_empty (trim_space name) || contains_rune slash name) bad_group_name
  validate_level g.globals
  validate_groups rest

abbrev pub is_known : Option Group → Bool
is_known none = false
is_known (some g) = true

-- One round of the loop over the instances, `seen` being the selectors of those before.
unfoldable pub validate_instance :
    List (Text × Group) → List Text → Instance → Result ConfigError (Unit {0})
validate_instance groups seen i = do
  reject (is_empty (trim_space i.name)) unnamed_instance
  reject (contains_rune slash i.name || contains_rune slash i.group) slash_in_name
  reject (not (is_empty i.group) && not (is_known (lookup_group i.group groups))) unknown_group
  reject (one_of (selector i.group i.name) seen) duplicate_instance
  given i.port (λ n. reject (is_below n 1 || is_above n 65535) bad_port)
  validate_level i.globals

unfoldable pub validate_instances :
    List (Text × Group) → List Text → List Instance → Result ConfigError (Unit {0})
validate_instances groups seen [] = ok tt
validate_instances groups seen (i ∷ rest) = do
  validate_instance groups seen i
  validate_instances groups (selector i.group i.name ∷ seen) rest

abbrev pub none_listed : List Instance → Bool
none_listed [] = true
none_listed (i ∷ rest) = false

unfoldable pub validate_structure : File → Result ConfigError (Unit {0})
validate_structure f = do
  reject (none_listed f.instances) no_instances
  validate_level f.globals
  validate_groups f.groups
  validate_instances f.groups [] f.instances

-- `info.Mode().Perm()&0o077 != 0`: a permission for the group or others.
abbrev pub is_shared : ℕ → Bool
is_shared perm = not (perm % 64 == 0)

unfoldable pub validate_file : ℕ → File → Result ConfigError (Unit {0})
validate_file perm f = do
  reject (has_secrets f && is_shared perm) insecure_permissions
  validate_structure f
