-- ===== src/Cli/Passwords/Examples.antt =====
-- Passwords that are typed and piped, and the theorems at them.
use fortivpn_go.Prelude.{
  ℕ, ◌≤◌, ◌<◌, ◌≡◌, refl, ◌≢◌, true, false, none, some, [], ◌∷◌, ◌++◌, arith, ok, codes,
}
use fortivpn_go.Cli.Inputs.{password_for_authentication}
use fortivpn_go.Cli.Passwords.{
  byte, no_byte, star, rubout, key, read_masked, Terminal, read_terminal, Stdin, read_password,
  login_password,
}
use fortivpn_go.Cli.Passwords.Typed.{typed, read_masked-typed}

abbrev no_input : Stdin
no_input = record { bytes = []; fails = false }

-- `ab`, a removal, and `c`.
abbrev corrected : Terminal
corrected = record {
  is_terminal = true;
  makes_raw = true;
  restores = true;
  reads =
      byte b'a' none
      ∷ byte b'b' none
      ∷ byte 0x7f none
      ∷ no_byte none
      ∷ byte b'c' none
      ∷ byte 13 none
      ∷ [];
}

corrected-read :
    login_password corrected no_input false (codes "bob") [] false ≡ some (ok (codes "ac"))
unfolding login_password read_terminal read_masked key password_for_authentication
corrected-read = refl

corrected-echo : (read_masked [] [] corrected.reads).1 ≡ star ∷ star ∷ rubout ∷ star ∷ []
unfolding read_masked key
corrected-echo = refl

piped :
    read_password (record { bytes = codes "secret" ++ (13 ∷ 10 ∷ codes "rest"); fails = true })
    ≡ ok (codes "secret")
unfolding read_password
piped = refl

-- One removal takes one of the two bytes of a letter such as é.
half_removed :
    (read_masked [] [] (byte 0xc3 none ∷ byte 0xa9 none ∷ byte 0x7f none ∷ byte 13 none ∷ [])).0
    ≡ some (ok (0xc3 ∷ []))
unfolding read_masked key
half_removed = refl

printable : (c : ℕ) → 0x20 ≤ c → c < 0x7f → (0x20 ≤ c) × (c ≢ 0x7f)
printable c h k = (h, λ e. absurd (omega (arith, k, e)))

read_masked-typed_example : (read_masked [] [] (typed (codes "pw") [])).0 ≡ some (ok (codes "pw"))
read_masked-typed_example =
    read_masked-typed (codes "pw") []
      (printable b'p' (omega arith) (omega arith), (printable b'w' (omega arith) (omega arith), tt))
      (omega arith) (omega arith)
