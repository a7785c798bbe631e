-- ===== src/Config/Add.antt =====
-- `AddInstance`: what it writes, and that the file it writes can be read again.
use mathlib.Core.Path.{subst}
use fortivpn_go.Prelude.{
  ℕ, ◌≡◌, refl, Bool, true, false, ◌&&◌, some, [], ◌∷◌, ◌++◌, if◌then◌else◌, ok, reject, >>-eq-ok,
  ok-injective,
}
use fortivpn_go.Config.{Instance, File, insecure_permissions, has_secrets, find_instance}
use fortivpn_go.Config.Validate.{validate_structure, is_shared, validate_file}
use fortivpn_go.Config.Resolve.{add_instance}
use fortivpn_go.Config.Lookup.{selector_of, find-selector_of}

-- A file and a mode, as `AddInstance` on `f` writes them.
abbrev Written : ℕ → File → Instance → File × ℕ → Type 0
Written perm f i (f', mode) =
    (f'.instances ≡ f.instances ++ (i ∷ []))
    × (f'.globals ≡ f.globals)
    × (f'.groups ≡ f.groups)
    × (mode ≡ (if has_secrets f' then 0x180 else perm))
    × (validate_file mode f' ≡ ok tt)
    × (find_instance f'.instances (selector_of i) ≡ some i)

abbrev with_instance : File → Instance → File
with_instance f i = record f { instances = f.instances ++ (i ∷ []) }

-- The mode that is written passes the check on the permissions.
mode_passes :
    (b : Bool) (perm : ℕ)
    → reject (b && is_shared (if b then 0x180 else perm)) insecure_permissions ≡ ok tt
mode_passes true perm = refl
mode_passes false perm = refl

written-valid :
    (perm : ℕ) (f : File)
    → validate_structure f ≡ ok tt
    → validate_file (if has_secrets f then 0x180 else perm) f ≡ ok tt
unfolding validate_file
written-valid perm f h = rw (mode_passes (has_secrets f) perm) h

-- When `AddInstance` succeeds, the file that it writes is the old one with the instance at the end,
-- its mode is 0600 if the file holds a password or a PSK and the old mode otherwise, and the file
-- passes the validation that every later load makes, in which the new instance's selector finds it.
pub add_instance-loads :
    (perm mode : ℕ) (f f' : File) (i : Instance)
    → add_instance perm f i ≡ ok (f', mode)
    → (f'.instances ≡ f.instances ++ (i ∷ []))
      × (f'.globals ≡ f.globals)
      × (f'.groups ≡ f.groups)
      × (mode ≡ (if has_secrets f' then 0x180 else perm))
      × (validate_file mode f' ≡ ok tt)
      × (find_instance f'.instances (selector_of i) ≡ some i)
unfolding add_instance
add_instance-loads perm mode f f' i h =
    let added = with_instance f i in
    let (_, h1) = >>-eq-ok (reject (has_secrets f && is_shared perm) insecure_permissions) _ h in
    let (valid, h2) = >>-eq-ok (validate_structure added) _ h1 in
    subst (Written perm f i)
      (ok-injective (added, if has_secrets added then 0x180 else perm) (f', mode) h2)
      (
        refl,
        refl,
        refl,
        refl,
        written-valid perm added valid,
        find-selector_of added f.instances i [] valid refl,
      )
