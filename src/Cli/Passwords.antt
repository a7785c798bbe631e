-- ===== src/Cli/Passwords.antt =====
-- cmd/fortivpn/main.go: `readMaskedPassword`, `readTerminalPassword`, `readPassword`, and the whole
-- of `passwordForAuthentication`. What is read is bytes.
pub mod Masked
pub mod Typed
pub mod Login
mod Examples
use fortivpn_go.Prelude.{
  ℕ, suc, ◌-◌, Bool, true, false, not, ◌&&◌, ◌||◌, Option, none, some, List, [], ◌∷◌, ◌++◌, ltb,
  leb, ◌==◌, if◌then◌else◌, length, take, Result, err, ok, Text,
}
use fortivpn_go.Cli.Inputs.{
  InputError, PasswordSource, no_password, from_stdin, from_terminal, from_flag,
  password_for_authentication,
}

-- The error of a read: the end of the input, or another.
pub data ReadFault : Type 0 where
  input_ended read_broken : ReadFault

-- What `Read` of one byte gives: a byte or none, and maybe an error.
pub data Read : Type 0 where
  byte : ℕ → Option ReadFault → Read
  no_byte : Option ReadFault → Read

pub data PasswordError : Type 0 where
  empty_password canceled end_of_input too_long ended_early broken : PasswordError
  not_a_terminal not_raw not_restored : PasswordError
  bad_flags : InputError → PasswordError

-- What is printed: a star, or the removal of one.
pub data Echo : Type 0 where
  star rubout : Echo

abbrev pub max_password_bytes : ℕ
max_password_bytes = 4096

-- What one byte does to the password: it ends the reading, is skipped, or edits.
pub data Key : Type 0 where
  finished : Result PasswordError (List ℕ) → Key
  skipped : Key
  edited : List ℕ → List Echo → Key

-- `password[:len(password)-1]`
abbrev pub without_last : List ℕ → List ℕ
without_last p = take (length p - 1) p

abbrev pub entered : List ℕ → Key
entered [] = finished (err empty_password)
entered (c ∷ p) = finished (ok (c ∷ p))

abbrev pub erased : List ℕ → Key
erased [] = edited [] []
erased (c ∷ p) = edited (without_last (c ∷ p)) (rubout ∷ [])

-- The switch of `readMaskedPassword`
unfoldable pub key : ℕ → List ℕ → Key
key c p =
    if c == 13 || c == 10
    then entered p
    else if c == 3
    then finished (err canceled)
    else if c == 4
    then finished (err end_of_input)
    else if c == 8 || c == 0x7f
    then erased p
    else if ltb c 0x20
    then skipped
    else if length p == max_password_bytes
    then finished (err too_long)
    else edited (p ++ (c ∷ [])) (star ∷ [])

abbrev pub fault_error : ReadFault → PasswordError
fault_error input_ended = ended_early
fault_error read_broken = broken

-- The result, none while the loop waits for more, and what was printed.
abbrev pub Masked : Type 0
Masked = Option (Result PasswordError (List ℕ)) × List Echo

-- `readMaskedPassword`. A byte that is skipped goes on to the next read, past the error beside it.
unfoldable pub read_masked : List ℕ → List Echo → List Read → Masked
unfolding key
read_masked p shown [] = (none, shown)
read_masked p shown (no_byte none ∷ rs) = read_masked p shown rs
read_masked p shown (no_byte (some f) ∷ rs) = (some (err (fault_error f)), shown)
read_masked p shown (byte c fault ∷ rs) = elim (key c p) [
  | finished r ↦ (some r, shown)
  | skipped ↦ read_masked p shown rs
  | edited q echo ↦ elim fault [
    | none ↦ read_masked q (shown ++ echo) rs
    | some f ↦ (some (err (fault_error f)), shown ++ echo)
  ]
]

-- The terminal, and what it gives.
pub record Terminal : Type 0 where
  pub is_terminal : Bool
  pub makes_raw : Bool
  pub restores : Bool
  pub reads : List Read

abbrev pub restored : Bool → Result PasswordError (List ℕ) → Result PasswordError (List ℕ)
restored restores (err e) = err e
restored true (ok p) = ok p
restored false (ok p) = err not_restored

abbrev pub after_reading :
    Terminal → Option (Result PasswordError (List ℕ)) → Option (Result PasswordError (List ℕ))
after_reading t none = none
after_reading t (some r) = some (restored t.restores r)

-- `readTerminalPassword`
unfoldable pub read_terminal : Terminal → Option (Result PasswordError (List ℕ))
unfolding read_masked
read_terminal t =
    if not t.is_terminal
    then some (err not_a_terminal)
    else if not t.makes_raw
    then some (err not_raw)
    else after_reading t (read_masked [] [] t.reads).0

-- Standard input: its bytes, and whether it ends with an error.
pub record Stdin : Type 0 where
  pub bytes : List ℕ
  pub fails : Bool

-- `ReadString`, and whether it found the newline
abbrev pub line_of : List ℕ → List ℕ × Bool
line_of [] = ([], false)
line_of (c ∷ s) = let rest = line_of s in if c == 10 then (c ∷ [], true) else (c ∷ rest.0, rest.1)

-- `strings.TrimSuffix` of one byte
abbrev pub trim_last : ℕ → List ℕ → List ℕ
trim_last c [] = []
trim_last c (d ∷ []) = if d == c then [] else d ∷ []
trim_last c (d ∷ e ∷ s) = d ∷ trim_last c (e ∷ s)

abbrev pub unless_empty : List ℕ → Result PasswordError (List ℕ)
unless_empty [] = err empty_password
unless_empty (c ∷ p) = ok (c ∷ p)

-- `readPassword`: an error counts only before the newline and before the limit.
unfoldable pub read_password : Stdin → Result PasswordError (List ℕ)
read_password input =
    let line = line_of (take (suc max_password_bytes) input.bytes) in
    if not line.1 && leb (length input.bytes) max_password_bytes && input.fails
    then err broken
    else if ltb max_password_bytes (length line.0)
    then err too_long
    else unless_empty (trim_last 13 (trim_last 10 line.0))

abbrev pub read_source :
    Terminal → Stdin → Result InputError PasswordSource → Option (Result PasswordError (List ℕ))
read_source t input (err e) = some (err (bad_flags e))
read_source t input (ok no_password) = some (ok [])
read_source t input (ok (from_flag p)) = some (ok p)
read_source t input (ok from_stdin) = some (read_password input)
read_source t input (ok from_terminal) = read_terminal t

-- `passwordForAuthentication`, none while the terminal waits
unfoldable pub login_password :
    Terminal
    → Stdin
    → (saml : Bool) (username password : Text) (password_stdin : Bool)
    → Option (Result PasswordError (List ℕ))
unfolding read_terminal read_password password_for_authentication
login_password t input saml username password stdin =
    read_source t input (password_for_authentication saml username password stdin)
