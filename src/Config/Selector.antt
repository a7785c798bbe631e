-- ===== src/Config/Selector.antt =====
-- Selectors: `ParseInstanceSelector` against `selector`.
use fortivpn_go.Prelude.{
  ℕ, ◌+◌, ◌≡◌, refl, ◌∙◌, ◌⊎◌, inl, inr, true, false, Option, none, some, [], ◌∷◌, ◌++◌, arith, ltb,
  ◌==◌, Bool-cases, Option-cases, ok, Text, is_empty, cons_before, trim_space, cut, count_rune,
}
use fortivpn_go.Config.{slash, selector, split_selector, parse_instance_selector}

abbrev pub HasNoSlash : Text → Type 0
HasNoSlash t = count_rune slash t ≡ 0

abbrev pub IsBlank : Text → Type 0
IsBlank t = is_empty (trim_space t) ≡ true

count_rune-append : (c : ℕ) (s t : Text) → count_rune c (s ++ t) ≡ count_rune c s + count_rune c t
unfolding count_rune
count_rune-append c [] t = omega arith
count_rune-append c (x ∷ s) t = ground (arith, count_rune-append c s t)

cut-none' : (c : ℕ) (t : Text) → count_rune c t ≡ 0 → cut c t ≡ none
unfolding cut count_rune
cut-none' c [] h = refl
cut-none' c (x ∷ s) h = ground (arith, cut-none' c s)

cut-append : (c : ℕ) (s t : Text) → count_rune c s ≡ 0 → cut c (s ++ (c ∷ t)) ≡ some (s, t)
unfolding cut count_rune
cut-append c [] t h = ground arith
cut-append c (x ∷ s) t h = ground (arith, cut-append c s t)

cons_before-some :
    (x : ℕ) (o : Option (Text × Text)) (before after : Text)
    → cons_before x o ≡ some (before, after)
    → (b : Text) × (o ≡ some (b, after)) × (before ≡ x ∷ b)
cons_before-some x none before after h = cc
cons_before-some x (some (b, a)) before after h = (b, ground arith, ground arith)

-- What a cut finds: the separator stands between the two parts, and not in the first.
cut-some :
    (c : ℕ) (t before after : Text)
    → cut c t ≡ some (before, after)
    → (t ≡ before ++ (c ∷ after)) × (count_rune c before ≡ 0)
unfolding cut count_rune
cut-some c [] before after h = cc
cut-some c (x ∷ s) before after h = elim (Bool-cases (x == c)) [
  | inl e ↦ ground arith
  | inr e ↦
      let (b, found, shape) = cons_before-some x (cut c s) before after (ground arith) in
      ground (arith, cut-some c s b after found)
]

cut-none : (c : ℕ) (t : Text) → cut c t ≡ none → count_rune c t ≡ 0
unfolding cut count_rune
cut-none c [] h = refl
cut-none c (x ∷ s) h = ground (arith, cut-none c s)

selector_grouped :
    (group name : Text) → ¬ (IsBlank group) → selector group name ≡ group ++ (slash ∷ name)
unfolding selector trim_space
selector_grouped [] name h = absurd (h refl)
selector_grouped (c ∷ s) name h = refl

count_one :
    (group name : Text)
    → HasNoSlash group
    → HasNoSlash name
    → count_rune slash (group ++ (slash ∷ name)) ≡ 1
count_one group name g n =
    count_rune-append slash group (slash ∷ name) ∙ (unfold count_rune in rw g (ground arith))

count_two :
    (group name : Text)
    → HasNoSlash group
    → ltb 1 (count_rune slash (group ++ (slash ∷ name))) ≡ false
    → HasNoSlash name
count_two group name g h =
    let e = count_rune-append slash group (slash ∷ name) in unfold count_rune in ground (arith, e)

-- A grouped instance is found again from its selector: if neither name has a slash and neither is
-- blank, the selector of the two splits into them.
pub parse-selector_grouped :
    (group name : Text)
    → HasNoSlash group
    → HasNoSlash name
    → ¬ (IsBlank group)
    → ¬ (IsBlank name)
    → parse_instance_selector (selector group name) ≡ ok (group, name)
unfolding parse_instance_selector
parse-selector_grouped group name g n bg bn =
    rw (selector_grouped group name bg)
      (rw (cut-append slash group name g, count_one group name g n) (ground arith))

-- An ungrouped instance is found again from its name.
pub parse-selector_ungrouped :
    (name : Text)
    → HasNoSlash name
    → ¬ (IsBlank name)
    → parse_instance_selector (selector [] name) ≡ ok ([], name)
unfolding parse_instance_selector selector
parse-selector_ungrouped name n bn = rw (cut-none' slash name n, n) (ground arith)

unqualified :
    (value group name : Text)
    → HasNoSlash value
    → split_selector none value ≡ ok (group, name)
    → (selector group name ≡ value)
      × HasNoSlash group
      × HasNoSlash name
      × (¬ (IsBlank name))
      × ((group ≡ []) ⊎ (¬ (IsBlank group)))
unfolding selector count_rune
unqualified value group name n h = ground arith

qualified :
    (value group name before after : Text)
    → value ≡ before ++ (slash ∷ after)
    → HasNoSlash before
    → ltb 1 (count_rune slash value) ≡ false
    → split_selector (some (before, after)) value ≡ ok (group, name)
    → (selector group name ≡ value)
      × HasNoSlash group
      × HasNoSlash name
      × (¬ (IsBlank name))
      × ((group ≡ []) ⊎ (¬ (IsBlank group)))
qualified value group name before after shape clean few h =
    ground (arith, count_two before after clean (rw (← shape) few), selector_grouped before after)

-- A selector that is accepted names its instance uniquely: it is the selector of the group and the
-- name that it was split into, these have no slash, the name is not blank, and the group is empty
-- or not blank.
pub parse_instance_selector-ok :
    (value group name : Text)
    → parse_instance_selector value ≡ ok (group, name)
    → (selector group name ≡ value)
      × HasNoSlash group
      × HasNoSlash name
      × (¬ (IsBlank name))
      × ((group ≡ []) ⊎ (¬ (IsBlank group)))
unfolding parse_instance_selector
parse_instance_selector-ok value group name h = elim (Bool-cases (ltb 1 (count_rune slash value))) [
  | inl many ↦ absurd (ground arith)
  | inr few ↦ elim (Option-cases (cut slash value)) [
    | inl e ↦ unqualified value group name (cut-none slash value e) (rw (few, e) at h)
    | inr ((before, after), e) ↦
        let (shape, clean) = cut-some slash value before after e in
        qualified value group name before after shape clean few (rw (few, e) at h)
  ]
]
