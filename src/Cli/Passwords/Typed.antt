-- ===== src/Cli/Passwords/Typed.antt =====
-- What is typed at the prompt of `readMaskedPassword` of cmd/fortivpn/main.go is what is read.
use mathlib.Core.List.{append-nil, append_assoc}
use fortivpn_go.Prelude.{
  ℕ, ◌+◌, ◌≤◌, ◌<◌, ◌≡◌, refl, ◌∙◌, Bool, false, ◌||◌, none, some, List, [], ◌∷◌, ◌++◌, arith, ltb,
  ◌==◌, if◌then◌else◌, length, All, length-append, err, ok,
}
use fortivpn_go.Cli.Passwords.{
  Read, byte, canceled, end_of_input, too_long, Echo, star, max_password_bytes, finished, skipped,
  edited, entered, erased, key, read_masked,
}
use fortivpn_go.Cli.Passwords.Masked.{IsPrintable}

-- A printable byte is none of the keys that `readMaskedPassword` tests, and there is room for it.
key-edited :
    (c : ℕ) (p : List ℕ)
    → IsPrintable c
    → length p < max_password_bytes
    → key c p ≡ edited (p ++ (c ∷ [])) (star ∷ [])
unfolding key
key-edited c p h l =
    by_tests (c == 13 || c == 10) (c == 3) (c == 4) (c == 8 || c == 0x7f) (ltb c 0x20)
      (length p == max_password_bytes) (not_enter h) (not_cancel h) (not_end h) (not_erase h)
      (not_low h) (not_full (length p) l)
  where
    not_enter : IsPrintable c → (c == 13 || c == 10) ≡ false
    not_enter k = ground arith

    not_cancel : IsPrintable c → (c == 3) ≡ false
    not_cancel k = ground arith

    not_end : IsPrintable c → (c == 4) ≡ false
    not_end k = ground arith

    not_erase : IsPrintable c → (c == 8 || c == 0x7f) ≡ false
    not_erase k = ground arith

    not_low : IsPrintable c → ltb c 0x20 ≡ false
    not_low k = ground arith

    not_full : (n : ℕ) → n < 4096 → (n == 4096) ≡ false
    not_full n k = ground arith

    by_tests :
        (a b d e f g : Bool)
        → a ≡ false
        → b ≡ false
        → d ≡ false
        → e ≡ false
        → f ≡ false
        → g ≡ false
        → (if a
            then entered p
            else if b
            then finished (err canceled)
            else if d
            then finished (err end_of_input)
            else if e
            then erased p
            else if f
            then skipped
            else if g
            then finished (err too_long)
            else edited (p ++ (c ∷ [])) (star ∷ []))
          ≡ edited (p ++ (c ∷ [])) (star ∷ [])
    by_tests a b d e f g i j k m n o = rw (i, j, k, m, n, o) refl

-- The bytes, and Enter.
abbrev pub typed : List ℕ → List Read → List Read
typed [] rs = byte 13 none ∷ rs
typed (c ∷ cs) rs = byte c none ∷ typed cs rs

read_entered :
    (p : List ℕ) (shown : List Echo) (rs : List Read)
    → 0 < length p
    → (read_masked p shown (typed [] rs)).0 ≡ some (ok (p ++ []))
unfolding read_masked key
read_entered [] shown rs k = absurd (omega (arith, k))
read_entered (c ∷ p) shown rs k = rw (append-nil (c ∷ p)) refl

read_onto :
    (p cs : List ℕ) (shown : List Echo) (rs : List Read)
    → All IsPrintable cs
    → length p + length cs ≤ max_password_bytes
    → 0 < length p + length cs
    → (read_masked p shown (typed cs rs)).0 ≡ some (ok (p ++ cs))
unfolding read_masked
read_onto p [] shown rs h l k = read_entered p shown rs (omega (arith, k))
read_onto p (c ∷ cs) shown rs (a, h) l k =
    let q = p ++ (c ∷ []) in
    let m =
      read_onto q cs (shown ++ (star ∷ [])) rs h (omega (arith, l, length-append p (c ∷ [])))
        (omega (arith, length-append p (c ∷ []))) in
    rw (read_masked, key-edited c p a (omega (arith, l))) (m ∙ rw (append_assoc p (c ∷ []) cs) refl)

-- Between 1 and 4096 bytes without control characters, and Enter: these bytes are the password,
-- whatever comes after.
pub read_masked-typed :
    (cs : List ℕ) (rs : List Read)
    → All IsPrintable cs
    → length cs ≤ max_password_bytes
    → 0 < length cs
    → (read_masked [] [] (typed cs rs)).0 ≡ some (ok cs)
read_masked-typed cs rs h l k = read_onto [] cs [] rs h (omega (arith, l)) (omega (arith, k))
