-- ===== src/Cli/Options.antt =====
-- What `withoutOption` and `optionValue` of cmd/fortivpn leave for the command that `connect` runs.
use mathlib.Core.Path.{subst}
use fortivpn_go.Prelude.{◌≡◌, refl, [], ◌∷◌, All, Result, err, ok, ok-injective, Text}
use fortivpn_go.Cli.{
  CliError, missing_value, Args, Kind, bare_name, other_argument, with_value, kind,
  option_value_from, option_value, cons_ok, without_option,
}

abbrev IsOther : Text → Text → Type 0
IsOther name argument = kind name argument ≡ other_argument

cons_ok-All :
    (P : Text → Type 0) (a : Text) (r : Result CliError Args) (kept : Args)
    → P a
    → cons_ok a r ≡ ok kept
    → ((rest : Args) → r ≡ ok rest → All P rest)
    → All P kept
cons_ok-All P a (err e) kept p h f = cc
cons_ok-All P a (ok args) kept p h f =
    subst (All P) (ok-injective (a ∷ args) kept h) (p, f args refl)

-- By what the first argument is, with the results for the rest after it.
kept_step :
    (name argument : Text) (k : Kind) (after kept : Result CliError Args) (result : Args)
    → kind name argument ≡ k
    → elim k [ bare_name ↦ after | other_argument ↦ cons_ok argument kept | with_value v ↦ kept ]
      ≡ ok result
    → ((rest : Args) → after ≡ ok rest → All (IsOther name) rest)
    → ((rest : Args) → kept ≡ ok rest → All (IsOther name) rest)
    → All (IsOther name) result
kept_step name argument bare_name after kept result e h f g = f result h
kept_step name argument other_argument after kept result e h f g =
    cons_ok-All (IsOther name) argument kept result e h g
kept_step name argument (with_value v) after kept result e h f g = g result h

last_step :
    (name argument : Text) (k : Kind) (result : Args)
    → kind name argument ≡ k
    → elim k [
      | bare_name ↦ err missing_value
      | other_argument ↦ ok (argument ∷ [])
      | with_value v ↦ ok []
    ]
      ≡ ok result
    → All (IsOther name) result
last_step name argument bare_name result e h = cc
last_step name argument other_argument result e h =
    subst (All (IsOther name)) (ok-injective (argument ∷ []) result h) (e, tt)
last_step name argument (with_value v) result e h =
    subst (All (IsOther name)) (ok-injective [] result h) tt

without_option-All :
    (args : Args) (name : Text) (kept : Args)
    → without_option args name ≡ ok kept
    → All (IsOther name) kept
unfolding without_option
without_option-All [] name kept h = subst (All (IsOther name)) (ok-injective [] kept h) tt
without_option-All (a ∷ []) name kept h = last_step name a (kind name a) kept refl h
without_option-All (a ∷ v ∷ rest) name kept h =
    kept_step name a (kind name a) (without_option rest name) (without_option (v ∷ rest) name) kept
      refl h (λ r e. without_option-All rest name r e)
      (λ r e. without_option-All (v ∷ rest) name r e)

option_value-others :
    (name found : Text) (args : Args)
    → All (IsOther name) args
    → option_value_from name found args ≡ ok found
unfolding option_value_from
option_value-others name found [] h = refl
option_value-others name found (a ∷ []) h = rw (h.0, option_value_from) refl
option_value-others name found (a ∷ v ∷ rest) h =
    rw (h.0, option_value_from) (option_value-others name found (v ∷ rest) h.1)

-- Once `withoutOption` has removed an option, `optionValue` does not find it.
pub option_value-without_option :
    (args : Args) (name : Text) (kept : Args)
    → without_option args name ≡ ok kept
    → option_value kept name ≡ ok []
unfolding option_value
option_value-without_option args name kept h =
    option_value-others name [] kept (without_option-All args name kept h)
