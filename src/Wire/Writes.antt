-- ===== src/Wire/Writes.antt =====
-- What `writeAll` has handed over when it returns.
use fortivpn_go.Prelude.{
  ℕ, zero, suc, ◌≤◌, ◌<◌, ◌≡◌, refl, sym, inl, inr, List, [], ◌∷◌, ◌++◌, arith, ltb, ◌==◌, le→ltb,
  Bool-cases, length, take, drop, take-append-drop, length-drop, Result, ok,
}
use mathlib.Core.Path.{subst}
use mathlib.Core.List.{append_assoc, append-nil}
use fortivpn_go.Wire.{
  WriteOutcome, wrote, write_failed, WriteError, then_sent, after_write, write_loop, write_all,
}

-- What a loop sent is a front of the bytes, all of them when it succeeds.
abbrev pub SentFront : List ℕ → Result WriteError (Unit {0}) × List ℕ → Type 0
SentFront bytes (r, sent) = (rest : List ℕ) × (bytes ≡ sent ++ rest) × (r ≡ ok tt → rest ≡ [])

-- A writer that keeps to the contract of `io.Writer` and fails on no call.
abbrev pub IsSteady : (ℕ → WriteOutcome) → Type 0
IsSteady writer = (k : ℕ) → 0 < k → (n : ℕ) × (writer k ≡ wrote n) × (0 < n) × (n ≤ k)

SentFront-then_sent :
    (front back : List ℕ) (r : Result WriteError (Unit {0}) × List ℕ)
    → SentFront back r
    → SentFront (front ++ back) (then_sent front r)
SentFront-then_sent front back (r, sent) (rest, e, h) = (rest, rw (e, append_assoc), h)

after_write-SentFront :
    (o : WriteOutcome) (bytes : List ℕ) (next : List ℕ → Result WriteError (Unit {0}) × List ℕ)
    → ((rest : List ℕ) → SentFront rest (next rest))
    → SentFront bytes (after_write o bytes next)
unfolding after_write
after_write-SentFront (write_failed n) bytes next h =
    (drop n bytes, sym (take-append-drop n bytes), λ e. cc)
after_write-SentFront (wrote n) bytes next h = elim (Bool-cases (n == 0)) [
  | inl e ↦ rw e (bytes, refl, λ e. cc)
  | inr e ↦ rw e (elim (Bool-cases (ltb (length bytes) n)) [
    | inl f ↦ rw f ([], sym (append-nil bytes), λ e. cc)
    | inr f ↦ rw f (
        subst (λ l. SentFront l (then_sent (take n bytes) (next (drop n bytes))))
          (take-append-drop n bytes)
          (SentFront-then_sent (take n bytes) (drop n bytes) _ (h (drop n bytes))))
  ])
]

loop-SentFront :
    (fuel : ℕ) (writer : ℕ → WriteOutcome) (bytes : List ℕ)
    → SentFront bytes (write_loop fuel writer bytes)
unfolding write_loop
loop-SentFront fuel writer [] = ([], refl, λ _. refl)
loop-SentFront zero writer (b ∷ bs) = (b ∷ bs, refl, λ h. cc)
loop-SentFront (suc fuel) writer (b ∷ bs) =
    after_write-SentFront (writer (length (b ∷ bs))) (b ∷ bs) (λ rest. write_loop fuel writer rest)
      (λ rest. loop-SentFront fuel writer rest)

-- Whatever the writer does, `writeAll` hands over a front of the bytes, and all of them if it
-- succeeds.
pub write_all-SentFront :
    (writer : ℕ → WriteOutcome) (bytes : List ℕ) → SentFront bytes (write_all writer bytes)
unfolding write_all
write_all-SentFront writer bytes = loop-SentFront (length bytes) writer bytes

steady_round :
    (n : ℕ) (bytes : List ℕ) (next : List ℕ → Result WriteError (Unit {0}) × List ℕ)
    → 0 < n
    → n ≤ length bytes
    → next (drop n bytes) ≡ (ok tt, drop n bytes)
    → after_write (wrote n) bytes next ≡ (ok tt, bytes)
unfolding after_write
steady_round n bytes next lo hi h =
    rw (le→ltb (length bytes) n hi) (rw h (ground (arith, take-append-drop n bytes)))

loop_steady :
    (fuel : ℕ) (writer : ℕ → WriteOutcome) (bytes : List ℕ)
    → IsSteady writer
    → length bytes ≤ fuel
    → write_loop fuel writer bytes ≡ (ok tt, bytes)
unfolding write_loop
loop_steady fuel writer [] h le = refl
loop_steady zero writer (b ∷ bs) h le = absurd (omega arith)
loop_steady (suc fuel) writer (b ∷ bs) h le =
    let (n, e, lo, hi) = h (length (b ∷ bs)) (omega arith) in
    rw (e, write_loop)
      (steady_round n (b ∷ bs) (λ rest. write_loop fuel writer rest) lo hi
        (loop_steady fuel writer (drop n (b ∷ bs)) h (omega (arith, length-drop n (b ∷ bs)))))

-- A writer that keeps taking bytes gets all of them: `writeAll` ends, and succeeds.
pub write_all_steady :
    (writer : ℕ → WriteOutcome) (bytes : List ℕ)
    → IsSteady writer
    → write_all writer bytes ≡ (ok tt, bytes)
unfolding write_all
write_all_steady writer bytes h = loop_steady (length bytes) writer bytes h (omega arith)
