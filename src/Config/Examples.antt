-- ===== src/Config/Examples.antt =====
-- A configuration with a group and two instances, and the theorems at it.
use fortivpn_go.Prelude.{
  ℕ, ◌≡◌, refl, ◌⊎◌, false, none, some, [], ◌∷◌, ◌++◌, if◌then◌else◌, ok, err, pos, is_zero, Text,
  codes, text_eq, trim_space, to_lower, contains_rune, cut, count_rune,
}
use fortivpn_go.Config.{
  Config, Globals, Group, Instance, File, insecure_permissions, lookup_group, contains_secret,
  has_secrets, selector, find_instance, parse_instance_selector,
}
use fortivpn_go.Config.Validate.{
  normalize, validate_ip_mode, validate_connection_settings, validate_groups, validate_instance,
  validate_instances, validate_structure, validate_file,
}
use fortivpn_go.Config.Resolve.{
  apply_globals, apply_bool, empty_config, choose, check_config, resolve, add_instance, text_le,
  insert_sorted, sort_texts, instance_selectors,
}
use fortivpn_go.Config.Selector.{
  HasNoSlash, IsBlank, parse-selector_grouped, parse_instance_selector-ok,
}
use fortivpn_go.Config.Precedence.{group_of, IsEffective, resolve-IsEffective}
use fortivpn_go.Config.Lookup.{
  selector_of, find-selector_of, IsProtocol, IsTransport, IsPort, resolve-IsChecked,
}
use fortivpn_go.Config.Add.{add_instance-loads}

abbrev nothing : Globals
nothing = record {
  insecure = none;
  ip_mode = none;
  timeout = none;
  browser = none;
  username = none;
  password = none;
  psk = none;
  protocol = none;
  remote_id = none;
  transport = none;
  tcp_port = none;
  socket = none;
}

abbrev office : Group
office = record {
  globals = record nothing { username = some (codes "bob"); protocol = some (codes " IPsec ") };
  saml = none;
}

abbrev milan : Instance
milan = record {
  name = codes "milan";
  group = codes "office";
  gateway = codes "vpn.example.test";
  port = some (pos 10443);
  realm = [];
  globals = record nothing { password = some (codes "secret") };
  saml = some false;
}

abbrev rome : Instance
rome = record milan { name = codes "rome"; port = none }

abbrev file : File
file = record {
  globals = record nothing { username = some (codes "alice"); timeout = some (pos 30) };
  groups = (codes "office", office) ∷ [];
  instances = milan ∷ [];
}

abbrev effective : Config
effective = record empty_config {
  gateway = codes "vpn.example.test";
  port = pos 10443;
  username = codes "bob";
  password = codes "secret";
  timeout = pos 30;
  protocol = codes "ipsec";
}

resolved : resolve 0x180 file (codes "office/milan") ≡ ok effective
unfolding resolve validate_file validate_structure validate_groups validate_instances
    validate_instance validate_connection_settings validate_ip_mode normalize has_secrets
    contains_secret find_instance selector lookup_group check_config apply_globals apply_bool
    text_eq trim_space to_lower contains_rune
resolved = refl

-- The password keeps a file readable by others from being used.
refused : resolve 0x1a4 file (codes "office/milan") ≡ err insecure_permissions
unfolding resolve validate_file has_secrets contains_secret
refused = refl

resolve-IsEffective_example :
    (chosen : Text) × (i : Instance) × (validate_file 0x180 file ≡ ok tt)
    × (choose file.instances (codes "office/milan") ≡ ok chosen)
    × (find_instance file.instances chosen ≡ some i)
    × IsEffective file.globals (group_of file i) i effective
resolve-IsEffective_example =
    resolve-IsEffective 0x180 file (codes "office/milan") effective resolved

resolve-IsChecked_example :
    IsPort effective.port
    × IsProtocol effective.protocol
    × IsTransport effective.transport
    × (is_zero effective.tcp_port ≡ false → effective.transport ≡ codes "tcp")
resolve-IsChecked_example = resolve-IsChecked 0x180 file (codes "office/milan") effective resolved

abbrev both : File
both = record file { instances = milan ∷ rome ∷ [] }

both_valid : validate_structure both ≡ ok tt
unfolding validate_structure validate_groups validate_instances validate_instance
    validate_connection_settings validate_ip_mode normalize selector lookup_group text_eq trim_space
    to_lower contains_rune
both_valid = refl

find-selector_of_example : find_instance both.instances (selector_of rome) ≡ some rome
find-selector_of_example = find-selector_of both (milan ∷ []) rome [] both_valid refl

added : add_instance 0x180 file rome ≡ ok (both, 0x180)
unfolding add_instance validate_structure validate_groups validate_instances validate_instance
    validate_connection_settings validate_ip_mode normalize selector lookup_group text_eq trim_space
    to_lower contains_rune has_secrets contains_secret
added = refl

add_instance-loads_example :
    (both.instances ≡ file.instances ++ (rome ∷ []))
    × (both.globals ≡ file.globals)
    × (both.groups ≡ file.groups)
    × ◌≡◌ {A = ℕ} 0x180 (if has_secrets both then 0x180 else 0x180)
    × (validate_file 0x180 both ≡ ok tt)
    × (find_instance both.instances (selector_of rome) ≡ some rome)
add_instance-loads_example = add_instance-loads 0x180 0x180 file both rome added

parse_example : parse_instance_selector (codes "office/milan") ≡ ok (codes "office", codes "milan")
unfolding parse_instance_selector count_rune cut trim_space
parse_example = refl

parse-selector_grouped_example :
    parse_instance_selector (selector (codes "office") (codes "milan"))
    ≡ ok (codes "office", codes "milan")
unfolding count_rune trim_space
parse-selector_grouped_example =
    parse-selector_grouped (codes "office") (codes "milan") refl refl (λ h. cc) (λ h. cc)

parse_instance_selector-ok_example :
    (selector (codes "office") (codes "milan") ≡ codes "office/milan")
    × HasNoSlash (codes "office")
    × HasNoSlash (codes "milan")
    × (¬ (IsBlank (codes "milan")))
    × ((codes "office" ≡ []) ⊎ (¬ (IsBlank (codes "office"))))
parse_instance_selector-ok_example =
    parse_instance_selector-ok (codes "office/milan") (codes "office") (codes "milan") parse_example

sorted_selectors :
    instance_selectors 0x180 both ≡ ok (codes "office/milan" ∷ codes "office/rome" ∷ [])
unfolding instance_selectors sort_texts insert_sorted text_le validate_file validate_structure
    validate_groups validate_instances validate_instance validate_connection_settings
    validate_ip_mode normalize selector lookup_group text_eq trim_space to_lower contains_rune
    has_secrets contains_secret
sorted_selectors = refl
