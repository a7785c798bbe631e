-- ===== src/Config.antt =====
-- internal/config/config.go: the configuration file, its validation, and the effective settings of
-- one instance. Decoding and encoding (JSON, YAML) are not part of it: a `File` is what they give.
pub mod Validate
pub mod Resolve
pub mod Selector
pub mod Precedence
pub mod Lookup
pub mod Add
mod Examples
use fortivpn_go.Prelude.{
  ℕ, Bool, false, not, ◌&&◌, ◌||◌, Option, none, some, List, [], ◌∷◌, ◌++◌, map, ltb, if◌then◌else◌,
  any, Result, ok, err, ℤ, Text, is_empty, text_eq, trim_space, cut, count_rune,
}

-- `Config`: the effective settings. Durations are in nanoseconds.
pub record Config : Type 0 where
  pub gateway : Text
  pub port : ℤ
  pub realm : Text
  pub username : Text
  pub password : Text
  pub psk : Text
  pub saml : Bool
  pub ip_mode : Text
  pub browser : Text
  pub timeout : ℤ
  pub insecure : Bool
  pub protocol : Text
  pub remote_id : Text
  pub transport : Text
  pub tcp_port : ℤ
  pub socket : Text

-- A pointer field is an option.
pub record Globals : Type 0 where
  pub insecure : Option Bool
  pub ip_mode : Option Text
  pub timeout : Option ℤ
  pub browser : Option Text
  pub username : Option Text
  pub password : Option Text
  pub psk : Option Text
  pub protocol : Option Text
  pub remote_id : Option Text
  pub transport : Option Text
  pub tcp_port : Option ℤ
  pub socket : Option Text

pub record Group : Type 0 where
  pub globals : Globals
  pub saml : Option Bool

pub record Instance : Type 0 where
  pub name : Text
  pub group : Text
  pub gateway : Text
  pub port : Option ℤ
  pub realm : Text
  pub globals : Globals
  pub saml : Option Bool

-- The groups stand in the order in which `range` visits the map.
pub record File : Type 0 where
  pub globals : Globals
  pub groups : List (Text × Group)
  pub instances : List Instance

pub data ConfigError : Type 0 where
  insecure_permissions no_instances bad_ip_mode bad_timeout bad_protocol bad_transport : ConfigError
  bad_tcp_port relative_socket bad_group_name unnamed_instance slash_in_name : ConfigError
  unknown_group duplicate_instance bad_port many_instances no_such_instance : ConfigError
  tcp_port_without_tcp bad_selector : ConfigError

abbrev pub slash : ℕ
slash = b'/'

-- `file.Groups[name]`
unfoldable pub lookup_group : Text → List (Text × Group) → Option Group
lookup_group name [] = none
lookup_group name ((key, g) ∷ rest) = if text_eq key name then some g else lookup_group name rest

-- `if p != nil && *p != "" `
abbrev pub is_given : Option Text → Bool
is_given none = false
is_given (some t) = not (is_empty t)

unfoldable pub contains_secret : Globals → Bool
contains_secret g = is_given g.password || is_given g.psk

unfoldable pub has_secrets : File → Bool
has_secrets f =
    contains_secret f.globals
    || any (λ (entry : Text × Group). contains_secret entry.1.globals) f.groups
    || any (λ (i : Instance). contains_secret i.globals) f.instances

-- The text of a selector.
unfoldable pub selector : Text → Text → Text
selector group instance_name =
    if is_empty group then instance_name else group ++ (slash ∷ instance_name)

unfoldable pub find_instance : List Instance → Text → Option Instance
find_instance [] selected = none
find_instance (i ∷ rest) selected =
    if text_eq (selector i.group i.name) selected then some i else find_instance rest selected

abbrev pub is_blank : Text → Bool
is_blank t = is_empty (trim_space t)

-- A selector is split at its slash. `qualified` tells whether it has one.
abbrev pub split_selector : Option (Text × Text) → Text → Result ConfigError (Text × Text)
split_selector none value = if is_blank value then err bad_selector else ok ([], value)
split_selector (some (group, name)) value =
    if is_blank name || is_blank group then err bad_selector else ok (group, name)

unfoldable pub parse_instance_selector : Text → Result ConfigError (Text × Text)
parse_instance_selector value =
    if ltb 1 (count_rune slash value)
    then err bad_selector
    else split_selector (cut slash value) value
