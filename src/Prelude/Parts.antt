-- ===== src/Prelude/Parts.antt =====
-- `strings.Split`, `strings.FieldsFunc` and `strconv.Atoi`.
use Prim.Native.Nat.{ℕ, zero, suc, ◌+◌, ◌-◌, ◌*◌, ◌^◌}
use mathlib.Core.Bool.{Bool, ◌&&◌}
use mathlib.Core.List.{List, [], ◌∷◌}
use mathlib.Core.Option.{Option, none, some}
use fortivpn_go.Prelude.Tests.{◌==◌, leb, ltb, if◌then◌else◌}
use fortivpn_go.Prelude.Texts.{Text}
use fortivpn_go.Prelude.Int.{ℤ, pos, negsuc}

-- A character in front of the first part.
abbrev pub to_first : ℕ → List Text → List Text
to_first c [] = (c ∷ []) ∷ []
to_first c (part ∷ parts) = (c ∷ part) ∷ parts

-- `strings.Split(s, string(c))`
unfoldable pub split : ℕ → Text → List Text
split c [] = [] ∷ []
split c (x ∷ s) = let parts = split c s in if x == c then [] ∷ parts else to_first x parts

abbrev pub without_empty : List Text → List Text
without_empty [] = []
without_empty ([] ∷ parts) = without_empty parts
without_empty ((c ∷ part) ∷ parts) = (c ∷ part) ∷ without_empty parts

split_at : (ℕ → Bool) → Text → List Text
split_at p [] = [] ∷ []
split_at p (x ∷ s) = let parts = split_at p s in if p x then [] ∷ parts else to_first x parts

-- `strings.FieldsFunc`: the parts between the characters of `p` that are not empty.
unfoldable pub fields_func : (ℕ → Bool) → Text → List Text
unfolding split_at
fields_func p s = without_empty (split_at p s)

abbrev pub is_digit : ℕ → Bool
is_digit c = leb 48 c && leb c 57

-- The decimal digits of `s`, after a number.
unfoldable pub digits : ℕ → Text → Option ℕ
digits n [] = some n
digits n (c ∷ s) = if is_digit c then digits (n * 10 + (c - 48)) s else none

abbrev pub unsigned : Text → Option ℕ
unsigned [] = none
unsigned (c ∷ s) = digits 0 (c ∷ s)

-- An int has 64 bits; a number out of its range is an error.
abbrev pub positive : Option ℕ → Option ℤ
positive none = none
positive (some n) = if ltb n (2 ^ 63) then some (pos n) else none

abbrev pub negative : Option ℕ → Option ℤ
negative none = none
negative (some zero) = some (pos 0)
negative (some (suc n)) = if ltb n (2 ^ 63) then some (negsuc n) else none

-- `strconv.Atoi`, none for an error.
unfoldable pub atoi : Text → Option ℤ
unfolding digits
atoi [] = none
atoi (c ∷ s) =
    if c == b'-'
    then negative (unsigned s)
    else if c == b'+'
    then positive (unsigned s)
    else positive (unsigned (c ∷ s))
