-- ===== src/Prelude/Trims.antt =====
-- `strings.TrimSpace` leaves nothing exactly where there is nothing but spaces.
use mathlib.Core.List.{[], ◌∷◌, ◌++◌, reverse, reverse-cons}
use mathlib.Core.Path.{◌≡◌, refl, sym, ap, ◌∙◌}
use mathlib.Core.Logic.{inl, inr}
use mathlib.Core.Bool.{Bool, true, false, not, ◌||◌}
use native.Mathlib.Omega.{arith}
use fortivpn_go.Prelude.Tests.{if◌then◌else◌, Bool-cases}
use fortivpn_go.Prelude.Lists.{any, any-append}
use fortivpn_go.Prelude.Texts.{Text, is_empty, is_space, trim_left, trim_space}

-- Whether some code point is no space.
abbrev has_word : Text → Bool
has_word t = any (λ c. not (is_space c)) t

has_word-trim_left : (t : Text) → has_word (trim_left t) ≡ has_word t
unfolding trim_left
has_word-trim_left [] = refl
has_word-trim_left (c ∷ t) = by_space (has_word-trim_left t) (is_space c) refl
  where
    by_space :
        has_word (trim_left t) ≡ has_word t
        → (b : Bool) → is_space c ≡ b
        → has_word (if b then trim_left t else c ∷ t) ≡ (not b || has_word t)
    by_space h true e = h
    by_space h false e = rw e refl

is_empty-trim_left : (t : Text) → is_empty (trim_left t) ≡ not (has_word t)
unfolding trim_left
is_empty-trim_left [] = refl
is_empty-trim_left (c ∷ t) = elim (Bool-cases (is_space c)) [
  | inl h ↦ rw h (is_empty-trim_left t)
  | inr h ↦ rw h refl
]

has_word-reverse : (t : Text) → has_word (reverse t) ≡ has_word t
has_word-reverse [] = refl
has_word-reverse (c ∷ t) =
    rw
      (
        reverse-cons c t,
        any-append (λ d. not (is_space d)) (reverse t) (c ∷ []),
        has_word-reverse t,
      )
      (swap (has_word t) (not (is_space c)))
  where
    swap : (a b : Bool) → (a || (b || false)) ≡ (b || a)
    swap a b = ground arith

is_empty-reverse : (t : Text) → is_empty (reverse t) ≡ is_empty t
is_empty-reverse [] = refl
is_empty-reverse (c ∷ t) = rw (reverse-cons c t) (last_no_empty (reverse t))
  where
    last_no_empty : (u : Text) → is_empty (u ++ (c ∷ [])) ≡ false
    last_no_empty [] = refl
    last_no_empty (d ∷ u) = refl

has_word-trim_space : (t : Text) → has_word (trim_space t) ≡ has_word t
unfolding trim_space
has_word-trim_space t =
    has_word-reverse (trim_left (reverse (trim_left t)))
    ∙ has_word-trim_left (reverse (trim_left t))
    ∙ has_word-reverse (trim_left t)
    ∙ has_word-trim_left t

is_empty-trim_space : (t : Text) → is_empty (trim_space t) ≡ not (has_word t)
unfolding trim_space
is_empty-trim_space t =
    is_empty-reverse (trim_left (reverse (trim_left t)))
    ∙ is_empty-trim_left (reverse (trim_left t))
    ∙ ap not (has_word-reverse (trim_left t) ∙ has_word-trim_left t)

-- To trim again changes nothing of whether a text is empty.
pub trim_again : (t : Text) → is_empty (trim_space (trim_space t)) ≡ is_empty (trim_space t)
trim_again t =
    is_empty-trim_space (trim_space t)
    ∙ ap not (has_word-trim_space t)
    ∙ sym (is_empty-trim_space t)
