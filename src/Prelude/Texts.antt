-- ===== src/Prelude/Texts.antt =====
-- Go strings as lists of code points, and what the program uses of the package `strings`.
-- Source literals are written as native texts and read by `codes`.
use Prim.Native.Nat.{ℕ, suc, ◌+◌}
use Prim.Native.Char.{code}
use Prim.Native.String.{String}
use mathlib.Core.Path.{◌≡◌, refl}
use mathlib.Core.Logic.{◌↔◌}
use mathlib.Core.Bool.{Bool, true, false, ◌&&◌, ◌||◌}
use mathlib.Core.List.{List, [], ◌∷◌, ◌++◌, map, reverse}
use mathlib.Core.Option.{Option, none, some}
use native.Mathlib.Omega.{arith}
use fortivpn_go.Prelude.Tests.{◌==◌, leb, ltb, if◌then◌else◌}
use fortivpn_go.Prelude.Lists.{any}

abbrev pub Text : Type 0
Text = List ℕ

abbrev pub codes : String → Text
codes String.[] = []
codes (String.◌∷◌ c s) = code c ∷ codes s

-- `a == b` on strings.
unfoldable pub text_eq : Text → Text → Bool
text_eq [] [] = true
text_eq [] (b ∷ bs) = false
text_eq (a ∷ as') [] = false
text_eq (a ∷ as') (b ∷ bs) = (a == b) && text_eq as' bs

pub text_eq_refl : (a : Text) → text_eq a a ≡ true
unfolding text_eq
text_eq_refl [] = refl
text_eq_refl (a ∷ s) = ground (arith, text_eq_refl s)

text_eq→eq : (a b : Text) → text_eq a b ≡ true → a ≡ b
unfolding text_eq
text_eq→eq [] [] h = refl
text_eq→eq [] (b ∷ t) h = cc
text_eq→eq (a ∷ s) [] h = cc
text_eq→eq (a ∷ s) (b ∷ t) h = ground (arith, text_eq→eq s t)

pub text_eq_iff : (a b : Text) → (text_eq a b ≡ true) ↔ (a ≡ b)
text_eq_iff a b = (text_eq→eq a b, λ e. rw (← e) (text_eq_refl a))

-- `s == ""`
abbrev pub is_empty : Text → Bool
is_empty [] = true
is_empty (c ∷ s) = false

-- `unicode.IsSpace`
unfoldable pub is_space : ℕ → Bool
is_space c =
    (leb 9 c && leb c 13)
    || c == 32
    || c == 0x85
    || c == 0xa0
    || c == 0x1680
    || (leb 0x2000 c && leb c 0x200a)
    || c == 0x2028
    || c == 0x2029
    || c == 0x202f
    || c == 0x205f
    || c == 0x3000

unfoldable pub trim_left : Text → Text
trim_left [] = []
trim_left (c ∷ s) = if is_space c then trim_left s else c ∷ s

-- `strings.TrimSpace`
unfoldable pub trim_space : Text → Text
unfolding trim_left is_space
trim_space s = reverse (trim_left (reverse (trim_left s)))

-- `strings.ToLower`, exact for what the program compares: the ASCII letters, and the two code
-- points outside ASCII whose lower case is an ASCII letter (U+0130 and U+212A).
unfoldable pub lower_rune : ℕ → ℕ
lower_rune c =
    if leb 65 c && leb c 90
    then c + 32
    else if c == 0x130
    then 105
    else if c == 0x212a
    then 107
    else c

unfoldable pub to_lower : Text → Text
unfolding lower_rune
to_lower = map lower_rune

-- `strings.Contains(s, string(c))`
unfoldable pub contains_rune : ℕ → Text → Bool
contains_rune c = any (λ x. x == c)

-- `strings.HasPrefix` and `strings.CutPrefix`
unfoldable pub cut_prefix : Text → Text → Option Text
cut_prefix [] s = some s
cut_prefix (p ∷ ps) [] = none
cut_prefix (p ∷ ps) (c ∷ s) = if c == p then cut_prefix ps s else none

unfoldable pub has_prefix : Text → Text → Bool
has_prefix [] s = true
has_prefix (p ∷ ps) [] = false
has_prefix (p ∷ ps) (c ∷ s) = (c == p) && has_prefix ps s

-- `strings.Contains`
unfoldable pub contains : Text → Text → Bool
unfolding has_prefix
contains sub [] = is_empty sub
contains sub (c ∷ s) = has_prefix sub (c ∷ s) || contains sub s

-- A character in front of what a cut found before the separator.
abbrev pub cons_before : ℕ → Option (Text × Text) → Option (Text × Text)
cons_before x none = none
cons_before x (some (before, after)) = some (x ∷ before, after)

-- `strings.Cut(s, string(c))`: the text before and after the first `c`.
unfoldable pub cut : ℕ → Text → Option (Text × Text)
cut c [] = none
cut c (x ∷ s) = if x == c then some ([], s) else cons_before x (cut c s)

-- `strings.Count(s, string(c))`
unfoldable pub count_rune : ℕ → Text → ℕ
count_rune c [] = 0
count_rune c (x ∷ s) = let rest = count_rune c s in if x == c then suc rest else rest

-- `len(s)`: the bytes of the UTF-8 form.
unfoldable pub byte_len : Text → ℕ
byte_len [] = 0
byte_len (c ∷ s) =
    (if ltb c 0x80 then 1 else if ltb c 0x800 then 2 else if ltb c 0x10000 then 3 else 4)
    + byte_len s

pub cut_prefix-append : (p s : Text) → cut_prefix p (p ++ s) ≡ some s
unfolding cut_prefix
cut_prefix-append [] s = refl
cut_prefix-append (c ∷ p) s = ground (arith, cut_prefix-append p s)

pub cut_prefix-some : (p s r : Text) → cut_prefix p s ≡ some r → s ≡ p ++ r
unfolding cut_prefix
cut_prefix-some [] s r h = ground arith
cut_prefix-some (c ∷ p) [] r h = cc
cut_prefix-some (c ∷ p) (x ∷ s) r h = ground (arith, cut_prefix-some p s r)
