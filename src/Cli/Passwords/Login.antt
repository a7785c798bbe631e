-- ===== src/Cli/Passwords/Login.antt =====
-- The password that `passwordForAuthentication` of cmd/fortivpn/main.go gives.
use mathlib.Core.Path.{subst}
use fortivpn_go.Prelude.{
  ℕ, suc, ◌≤◌, ◌<◌, ◌≡◌, refl, sym, ◌≢◌, ◌⊎◌, inl, inr, Bool, true, false, not, ◌&&◌, Option, none,
  some, List, [], ◌∷◌, arith, ltb, leb, ◌==◌, if◌then◌else◌, by_if, length, take, All, Result, err,
  ok, ok-injective, Text,
}
use fortivpn_go.Cli.Inputs.{
  InputError, PasswordSource, no_password, from_stdin, from_terminal, from_flag,
  password_for_authentication,
}
use fortivpn_go.Cli.Modes.{IsChosen, password_for_authentication-IsChosen}
use fortivpn_go.Cli.Passwords.{
  PasswordError, too_long, broken, not_a_terminal, not_raw, bad_flags, max_password_bytes, Masked,
  read_masked, Terminal, restored, after_reading, read_terminal, Stdin, line_of, trim_last,
  unless_empty, read_password, read_source, login_password,
}
use fortivpn_go.Cli.Passwords.Masked.{IsTyped, HasMasked, read_masked-HasMasked}

abbrev pub IsInLine : List ℕ → Type 0
IsInLine p = All (λ c. c ≢ 10) p

trim_last-All : (P : ℕ → Type 0) (c : ℕ) (s : List ℕ) → All P s → All P (trim_last c s)
trim_last-All P c [] h = tt
trim_last-All P c (d ∷ []) h = by_if (All P) (d == c) [] (d ∷ []) (λ k. tt) (λ k. h)
trim_last-All P c (d ∷ e ∷ s) h = (h.0, trim_last-All P c (e ∷ s) h.1)

length-trim_last : (c : ℕ) (s : List ℕ) → length (trim_last c s) ≤ length s
length-trim_last c [] = omega arith
length-trim_last c (d ∷ []) =
    by_if (λ (s : List ℕ). length s ≤ 1) (d == c) [] (d ∷ []) (λ k. omega arith) (λ k. omega arith)
length-trim_last c (d ∷ e ∷ s) = omega (arith, length-trim_last c (e ∷ s))

cons-IsInLine :
    (c : ℕ) (s : List ℕ) → c ≢ 10 → IsInLine (trim_last 10 s) → IsInLine (trim_last 10 (c ∷ s))
cons-IsInLine c [] n h = by_if IsInLine (c == 10) [] (c ∷ []) (λ k. tt) (λ k. (n, tt))
cons-IsInLine c (d ∷ s) n h = (n, h)

line_of-IsInLine : (s : List ℕ) → IsInLine (trim_last 10 (line_of s).0)
line_of-IsInLine [] = tt
line_of-IsInLine (c ∷ s) =
    by_if (λ (l : List ℕ × Bool). IsInLine (trim_last 10 l.0)) (c == 10) (c ∷ [], true)
      (c ∷ (line_of s).0, (line_of s).1)
      (λ k. by_if IsInLine (c == 10) [] (c ∷ []) (λ m. tt) (λ m. absurd (both k m)))
      (λ k. cons-IsInLine c (line_of s).0 (other k) (line_of-IsInLine s))
  where
    both : (c == 10) ≡ true → (c == 10) ≡ false → ⊥
    both k m = ground arith

    other : (c == 10) ≡ false → c ≢ 10
    other k = ground arith

-- A password from standard input: one line of at most 4096 bytes, not empty.
abbrev pub IsLine : Result PasswordError (List ℕ) → Type 0
IsLine (err e) = Unit {0}
IsLine (ok p) = (0 < length p) × (length p ≤ max_password_bytes) × IsInLine p

unless_empty-IsLine :
    (p : List ℕ) → length p ≤ max_password_bytes → IsInLine p → IsLine (unless_empty p)
unless_empty-IsLine [] l h = tt
unless_empty-IsLine (c ∷ p) l h = (omega arith, l, h)

read_password-IsLine : (input : Stdin) → IsLine (read_password input)
unfolding read_password
read_password-IsLine input =
    let line = line_of (take (suc max_password_bytes) input.bytes) in
    let cut = trim_last 10 line.0 in
    by_if IsLine (not line.1 && leb (length input.bytes) max_password_bytes && input.fails)
      (err broken)
      (if ltb max_password_bytes (length line.0)
        then err too_long
        else unless_empty (trim_last 13 cut))
      (λ k. tt)
      (λ k.
        by_if IsLine (ltb max_password_bytes (length line.0)) (err too_long)
          (unless_empty (trim_last 13 cut)) (λ m. tt)
          (λ m.
            unless_empty-IsLine (trim_last 13 cut)
              (short (length line.0) m (length-trim_last 13 cut) (length-trim_last 10 line.0))
              (trim_last-All (λ c. c ≢ 10) 13 cut
                (line_of-IsInLine (take (suc max_password_bytes) input.bytes)))))
  where
    short : {a b : ℕ} (n : ℕ) → ltb 4096 n ≡ false → a ≤ b → b ≤ n → a ≤ 4096
    short n m h k = ground arith

-- A password from the terminal.
abbrev pub IsEntered : Option (Result PasswordError (List ℕ)) → Type 0
IsEntered none = Unit {0}
IsEntered (some (err e)) = Unit {0}
IsEntered (some (ok p)) = IsTyped p × (0 < length p)

after_reading-IsEntered :
    (t : Terminal) (m : Masked) → HasMasked m → IsEntered (after_reading t m.0)
after_reading-IsEntered t (none, shown) h = tt
after_reading-IsEntered t (some (err e), shown) h = tt
after_reading-IsEntered t (some (ok p), shown) h = restored-IsEntered t.restores
  where
    restored-IsEntered : (b : Bool) → IsEntered (some (restored b (ok p)))
    restored-IsEntered true = (h.0, h.1)
    restored-IsEntered false = tt

read_terminal-IsEntered : (t : Terminal) → IsEntered (read_terminal t)
unfolding read_terminal
read_terminal-IsEntered t =
    by_if IsEntered (not t.is_terminal) (some (err not_a_terminal))
      (if not t.makes_raw
        then some (err not_raw)
        else after_reading t (read_masked [] [] t.reads).0)
      (λ k. tt)
      (λ k.
        by_if IsEntered (not t.makes_raw) (some (err not_raw))
          (after_reading t (read_masked [] [] t.reads).0) (λ m. tt)
          (λ m.
            after_reading-IsEntered t (read_masked [] [] t.reads)
              (read_masked-HasMasked [] [] t.reads (omega arith, tt) refl)))

-- Where a password may come from, and what it then is.
abbrev pub HasPassword : Bool → Text → Text → Bool → List ℕ → Type 0
HasPassword saml username password stdin p =
    (IsChosen saml username password stdin no_password × (p ≡ []))
    ⊎ IsChosen saml username password stdin (from_flag p)
    ⊎ (IsChosen saml username password stdin from_stdin × IsLine (ok p))
    ⊎ (IsChosen saml username password stdin from_terminal × IsTyped p × (0 < length p))

-- The two layers of a result that was read.
some_given : (a b : Result PasswordError (List ℕ)) → some a ≡ some b → a ≡ b
some_given a b h = cc

from_source :
    (t : Terminal) (input : Stdin) (saml : Bool) (username password : Text) (stdin : Bool)
    (r : Result InputError PasswordSource) (p : List ℕ)
    → password_for_authentication saml username password stdin ≡ r
    → read_source t input r ≡ some (ok p)
    → HasPassword saml username password stdin p
from_source t input saml username password stdin (err e) p h k =
    let m = some_given (err (bad_flags e)) (ok p) k in cc
from_source t input saml username password stdin (ok no_password) p h k =
    let m = ok-injective [] p (some_given (ok []) (ok p) k) in
    inl (password_for_authentication-IsChosen saml username password stdin no_password h, sym m)
from_source t input saml username password stdin (ok (from_flag q)) p h k =
    let m = ok-injective q p (some_given (ok q) (ok p) k) in
    inr (
      inl (
        rw (← m)
          (password_for_authentication-IsChosen saml username password stdin (from_flag q) h)))
from_source t input saml username password stdin (ok from_stdin) p h k =
    let m = some_given (read_password input) (ok p) k in
    inr (
      inr (
        inl (
          password_for_authentication-IsChosen saml username password stdin from_stdin h,
          subst IsLine m (read_password-IsLine input),
        )))
from_source t input saml username password stdin (ok from_terminal) p h k =
    let (typed, l) = subst IsEntered k (read_terminal-IsEntered t) in
    inr (
      inr (
        inr (
          password_for_authentication-IsChosen saml username password stdin from_terminal h,
          typed,
          l,
        )))

-- When a password is given, it is none for SAML, which takes no flags of a password; or the one of
-- its flag, without `--password-stdin`; or with `--password-stdin` one line of standard input; or
-- what was typed at the terminal. What is read is not empty and has at most 4096 bytes, and what is
-- typed has no control character.
pub login_password-HasPassword :
    (t : Terminal) (input : Stdin) (saml : Bool) (username password : Text) (stdin : Bool)
    (p : List ℕ)
    → login_password t input saml username password stdin ≡ some (ok p)
    → HasPassword saml username password stdin p
unfolding login_password
login_password-HasPassword t input saml username password stdin p h =
    from_source t input saml username password stdin
      (password_for_authentication saml username password stdin) p refl h
