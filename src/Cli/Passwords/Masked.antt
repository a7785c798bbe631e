-- ===== src/Cli/Passwords/Masked.antt =====
-- `readMaskedPassword` of cmd/fortivpn/main.go: the password, and the stars on the screen.
use fortivpn_go.Prelude.{
  ℕ, zero, suc, ◌-◌, ◌≤◌, ◌<◌, ◌≡◌, refl, sym, ap, ◌∙◌, ◌≢◌, Bool, true, false, ◌||◌, Option, none,
  some, List, [], ◌∷◌, ◌++◌, arith, ltb, ◌==◌, if◌then◌else◌, length, take, drop, All,
  length-append, take-append-drop, length-take, All-append, All-front, err, ok,
}
use fortivpn_go.Cli.Passwords.{
  ReadFault, Read, byte, no_byte, canceled, end_of_input, too_long, Echo, star, rubout,
  max_password_bytes, Key, finished, skipped, edited, without_last, entered, erased, key,
  fault_error, Masked, read_masked,
}

-- The stars on the screen after what was printed, none where a star is removed that is not there.
abbrev pub stars : Option ℕ → List Echo → Option ℕ
stars none es = none
stars (some n) [] = some n
stars (some n) (star ∷ es) = stars (some (suc n)) es
stars (some zero) (rubout ∷ es) = none
stars (some (suc n)) (rubout ∷ es) = stars (some n) es

stars-append : (o : Option ℕ) (es fs : List Echo) → stars o (es ++ fs) ≡ stars (stars o es) fs
stars-append none es fs = refl
stars-append (some n) [] fs = refl
stars-append (some n) (star ∷ es) fs = stars-append (some (suc n)) es fs
stars-append (some zero) (rubout ∷ es) fs = refl
stars-append (some (suc n)) (rubout ∷ es) fs = stars-append (some n) es fs

abbrev pub IsPrintable : ℕ → Type 0
IsPrintable c = (0x20 ≤ c) × (c ≢ 0x7f)

-- At most 4096 bytes, none a control character.
abbrev pub IsTyped : List ℕ → Type 0
IsTyped p = (length p ≤ max_password_bytes) × All IsPrintable p

abbrev KeyOutcome : List ℕ → Key → Type 0
KeyOutcome p (finished (ok q)) = (q ≡ p) × (0 < length q)
KeyOutcome p (finished (err e)) = Unit {0}
KeyOutcome p skipped = Unit {0}
KeyOutcome p (edited q echo) = IsTyped q × (stars (some (length p)) echo ≡ some (length q))

entered-outcome : (p : List ℕ) → KeyOutcome p (entered p)
entered-outcome [] = tt
entered-outcome (c ∷ p) = (refl, omega arith)

without_last-IsTyped : (c : ℕ) (p : List ℕ) → IsTyped (c ∷ p) → IsTyped (without_last (c ∷ p))
without_last-IsTyped c p (l, h) =
    let n = length (c ∷ p) - 1 in
    (
      omega (arith, l, length-take n (c ∷ p)),
      All-front IsPrintable (take n (c ∷ p)) (drop n (c ∷ p)) (rw (take-append-drop n (c ∷ p)) h),
    )

length-without_last : (c : ℕ) (p : List ℕ) → length (take (length (c ∷ p) - 1) (c ∷ p)) ≡ length p
length-without_last c p = omega (arith, length-take (length (c ∷ p) - 1) (c ∷ p))

erased-outcome : (p : List ℕ) → IsTyped p → KeyOutcome p (erased p)
erased-outcome [] h = (h, refl)
erased-outcome (c ∷ p) h = (without_last-IsTyped c p h, ap some (sym (length-without_last c p)))

typed-outcome :
    (c : ℕ) (p : List ℕ)
    → IsTyped p
    → (c == 8 || c == 0x7f) ≡ false
    → ltb c 0x20 ≡ false
    → (length p == max_password_bytes) ≡ false
    → KeyOutcome p (edited (p ++ (c ∷ [])) (star ∷ []))
typed-outcome c p (l, h) e k m = (
  (
    omega (arith, length-append p (c ∷ []), below (length p) l m),
    All-append IsPrintable p (c ∷ []) h (printable e k, tt),
  ),
  ap some (omega (arith, length-append p (c ∷ []))),
)
  where
    below : (n : ℕ) → n ≤ 4096 → (n == 4096) ≡ false → n < 4096
    below n a b = ground arith

    printable : (c == 8 || c == 0x7f) ≡ false → ltb c 0x20 ≡ false → IsPrintable c
    printable a b = ground arith

key-outcome : (c : ℕ) (p : List ℕ) → IsTyped p → KeyOutcome p (key c p)
unfolding key
key-outcome c p h =
    by_tests (c == 13 || c == 10) (c == 3) (c == 4) (c == 8 || c == 0x7f) (ltb c 0x20)
      (length p == max_password_bytes) (typed-outcome c p h)
  where
    by_tests :
        (enter cancel end erase low full : Bool)
        → (erase ≡ false
            → low ≡ false
            → full ≡ false
            → KeyOutcome p (edited (p ++ (c ∷ [])) (star ∷ [])))
        → KeyOutcome p (
            if enter
            then entered p
            else if cancel
            then finished (err canceled)
            else if end
            then finished (err end_of_input)
            else if erase
            then erased p
            else if low
            then skipped
            else if full
            then finished (err too_long)
            else edited (p ++ (c ∷ [])) (star ∷ []))
    by_tests true cancel end erase low full f = entered-outcome p
    by_tests false true end erase low full f = tt
    by_tests false false true erase low full f = tt
    by_tests false false false true low full f = erased-outcome p h
    by_tests false false false false true full f = tt
    by_tests false false false false false true f = tt
    by_tests false false false false false false f = f refl refl refl

-- A password that is read is not empty, has at most 4096 bytes, none a control character, and as
-- many stars stand on the screen.
abbrev pub HasMasked : Masked → Type 0
HasMasked (some (ok p), shown) =
    IsTyped p × (0 < length p) × (stars (some 0) shown ≡ some (length p))
HasMasked (some (err e), shown) = (n : ℕ) × (stars (some 0) shown ≡ some n)
HasMasked (none, shown) = (n : ℕ) × (stars (some 0) shown ≡ some n)

fault-HasMasked :
    (p : List ℕ) (shown : List Echo) (fault : Option ReadFault) (next : Masked)
    → stars (some 0) shown ≡ some (length p)
    → HasMasked next
    → HasMasked (elim fault [ none ↦ next | some f ↦ (some (err (fault_error f)), shown) ])
fault-HasMasked p shown none next e h = h
fault-HasMasked p shown (some f) next e h = (length p, e)

echo-stars :
    (p q : List ℕ) (shown echo : List Echo)
    → stars (some 0) shown ≡ some (length p)
    → stars (some (length p)) echo ≡ some (length q)
    → stars (some 0) (shown ++ echo) ≡ some (length q)
echo-stars p q shown echo e h = stars-append (some 0) shown echo ∙ rw e h

pub read_masked-HasMasked :
    (p : List ℕ) (shown : List Echo) (rs : List Read)
    → IsTyped p
    → stars (some 0) shown ≡ some (length p)
    → HasMasked (read_masked p shown rs)
unfolding read_masked
read_masked-HasMasked p shown [] t e = (length p, e)
read_masked-HasMasked p shown (no_byte none ∷ rs) t e = read_masked-HasMasked p shown rs t e
read_masked-HasMasked p shown (no_byte (some f) ∷ rs) t e = (length p, e)
read_masked-HasMasked p shown (byte c fault ∷ rs) t e =
    by_key (key c p) (key-outcome c p t) (read_masked-HasMasked p shown rs t e)
      (λ q echo u m. read_masked-HasMasked q (shown ++ echo) rs u m)
  where
    by_key :
        (k : Key)
        → KeyOutcome p k
        → HasMasked (read_masked p shown rs)
        → ((q : List ℕ) (echo : List Echo)
            → IsTyped q
            → stars (some 0) (shown ++ echo) ≡ some (length q)
            → HasMasked (read_masked q (shown ++ echo) rs))
        → HasMasked (elim k [
          | finished r ↦ (some r, shown)
          | skipped ↦ read_masked p shown rs
          | edited q echo ↦ elim fault [
            | none ↦ read_masked q (shown ++ echo) rs
            | some f ↦ (some (err (fault_error f)), shown ++ echo)
          ]
        ])
    by_key (finished (ok q)) (same, l) h f = (rw same t, l, rw same e)
    by_key (finished (err x)) o h f = (length p, e)
    by_key skipped o h f = h
    by_key (edited q echo) (u, m) h f =
        let n = echo-stars p q shown echo e m in
        fault-HasMasked q (shown ++ echo) fault _ n (f q echo u n)
