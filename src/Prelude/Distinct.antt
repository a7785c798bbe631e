-- ===== src/Prelude/Distinct.antt =====
-- Lists without repetition, under a Boolean equality, and the append that keeps them so.
use mathlib.Core.Path.{◌≡◌, refl}
use mathlib.Core.Logic.{inl, inr}
use mathlib.Core.Bool.{Bool, false}
use mathlib.Core.List.{List, [], ◌∷◌, ◌++◌}
use fortivpn_go.Prelude.Tests.{if◌then◌else◌, Bool-cases, ||-false}
use fortivpn_go.Prelude.Lists.{All, any, All-append, any-append}

module _ {A : Type 0} (eq : A → A → Bool) where
  abbrev pub IsDistinctBy : List A → Type 0
  IsDistinctBy [] = Unit {0}
  IsDistinctBy (x ∷ xs) = (any (λ y. eq x y) xs ≡ false) × IsDistinctBy xs

  -- The value at the end, unless an equal one is there.
  abbrev pub append_unique : List A → A → List A
  append_unique xs v = if any (λ x. eq x v) xs then xs else xs ++ (v ∷ [])

  append-IsDistinctBy :
      (xs : List A) (v : A)
      → any (λ x. eq x v) xs ≡ false
      → IsDistinctBy xs
      → IsDistinctBy (xs ++ (v ∷ []))
  append-IsDistinctBy [] v h d = (refl, tt)
  append-IsDistinctBy (x ∷ xs) v h d =
      let (a, b) = ||-false (eq x v) (any (λ y. eq y v) xs) h in
      (rw (any-append (λ y. eq x y) xs (v ∷ []), d.0, a) refl, append-IsDistinctBy xs v b d.1)

  pub append_unique-IsDistinctBy :
      (xs : List A) (v : A) → IsDistinctBy xs → IsDistinctBy (append_unique xs v)
  append_unique-IsDistinctBy xs v d = elim (Bool-cases (any (λ x. eq x v) xs)) [
    | inl h ↦ rw h d
    | inr h ↦ rw h (append-IsDistinctBy xs v h d)
  ]

  pub append_unique-All :
      (P : A → Type 0) (xs : List A) (v : A) → All P xs → P v → All P (append_unique xs v)
  append_unique-All P xs v d p = elim (Bool-cases (any (λ x. eq x v) xs)) [
    | inl h ↦ rw h d
    | inr h ↦ rw h (All-append P xs (v ∷ []) d (p, tt))
  ]
