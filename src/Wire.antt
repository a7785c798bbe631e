-- ===== src/Wire.antt =====
-- Byte streams as the framing code of internal/fortinet/tunnel.go and
-- internal/ipsec/tcptransport/relay.go uses them: big-endian numbers, `io.ReadFull`, `writeAll`.
pub mod Writes
use fortivpn_go.Prelude.{
  ℕ, zero, suc, ◌+◌, ◌*◌, ◌/◌, ◌%◌, ◌<◌, ◌≡◌, some, List, [], ◌∷◌, ◌++◌, arith, ltb, ◌==◌,
  if◌then◌else◌, le→ltb, length, take, drop, length-append, take-append, drop-append,
  take-append-drop, length-take, Result, ok, err,
}

abbrev pub IsByte : ℕ → Type 0
IsByte b = b < 256

-- `binary.BigEndian.PutUint16(b, uint16(n))`: the conversion drops what is above 16 bits.
unfoldable pub put_u16 : ℕ → List ℕ
put_u16 n = (n / 256 % 256) ∷ (n % 256) ∷ []

-- `binary.BigEndian.Uint16(b)`
unfoldable pub get_u16 : List ℕ → ℕ
get_u16 (a ∷ b ∷ rest) = a * 256 + b
get_u16 _ = 0

pub data IoError : Type 0 where
  eof unexpected_eof io_failed : IoError

-- What a reader will still deliver, and the error that ends it.
pub record Source : Type 0 where
  pub bytes : List ℕ
  pub final : IoError

-- `io.ReadFull` reports an end inside the block as unexpected.
short_read : List ℕ → IoError → IoError
short_read [] e = e
short_read (b ∷ bs) eof = unexpected_eof
short_read (b ∷ bs) e = e

-- `io.ReadFull` into a block of `n` bytes.
unfoldable pub read_full : ℕ → Source → Result IoError (List ℕ) × Source
unfolding short_read
read_full n s =
    if ltb (length s.bytes) n
    then (err (short_read s.bytes s.final), record s { bytes = [] })
    else (ok (take n s.bytes), record s { bytes = drop n s.bytes })

-- One call of `Write` takes some bytes, or fails after it took some.
pub data WriteOutcome : Type 0 where
  wrote : ℕ → WriteOutcome
  write_failed : ℕ → WriteOutcome

-- `overrun` is the panic of slicing past the end; `unfinished` is no Go value, the loop ran out
-- of fuel.
pub data WriteError : Type 0 where
  write_error short_write overrun unfinished : WriteError

-- The rest of the loop, after what was written so far.
abbrev pub then_sent :
    List ℕ → Result WriteError (Unit {0}) × List ℕ → Result WriteError (Unit {0}) × List ℕ
then_sent sent (r, more) = (r, sent ++ more)

-- One round of `writeAll` on bytes that are left, `next` being the loop on what remains after it.
unfoldable pub after_write :
    WriteOutcome
    → List ℕ
    → (List ℕ → Result WriteError (Unit {0}) × List ℕ)
    → Result WriteError (Unit {0}) × List ℕ
after_write (write_failed n) bytes next = (err write_error, take n bytes)
after_write (wrote n) bytes next =
    if n == 0
    then (err short_write, [])
    else if ltb (length bytes) n
    then (err overrun, bytes)
    else then_sent (take n bytes) (next (drop n bytes))

-- `writeAll`, with the bytes that it handed over. A call of `Write` is known by the number of
-- bytes that are left, since that number falls with each call.
unfoldable pub write_loop : ℕ → (ℕ → WriteOutcome) → List ℕ → Result WriteError (Unit {0}) × List ℕ
unfolding after_write
write_loop fuel writer [] = (ok tt, [])
write_loop zero writer (b ∷ bs) = (err unfinished, [])
write_loop (suc fuel) writer (b ∷ bs) =
    after_write (writer (length (b ∷ bs))) (b ∷ bs) (λ rest. write_loop fuel writer rest)

-- Each round takes a byte at least, so as many rounds as bytes are enough.
unfoldable pub write_all : (ℕ → WriteOutcome) → List ℕ → Result WriteError (Unit {0}) × List ℕ
unfolding write_loop
write_all writer bytes = write_loop (length bytes) writer bytes

pub get_u16-put_u16 : (n : ℕ) → n < 65536 → get_u16 (put_u16 n) ≡ n
unfolding get_u16 put_u16
get_u16-put_u16 n h = omega arith

pub put_u16-get_u16 : (a b : ℕ) → IsByte a → IsByte b → put_u16 (a * 256 + b) ≡ a ∷ b ∷ []
unfolding put_u16
put_u16-get_u16 a b ha hb = ground arith

-- A block that is there is read whole, and what follows it stays.
pub read_full-append :
    (p rest : List ℕ) (e : IoError)
    → read_full (length p) (record { bytes = p ++ rest; final = e })
      ≡ (ok p, record { bytes = rest; final = e })
unfolding read_full
read_full-append p rest e =
    rw (le→ltb (length (p ++ rest)) (length p) (omega (arith, length-append p rest)))
      (rw (take-append p rest, drop-append p rest))

-- A block that was read is the front of the source.
pub read_full-ok :
    (n : ℕ) (s s' : Source) (p : List ℕ)
    → read_full n s ≡ (ok p, s')
    → (s.bytes ≡ p ++ s'.bytes) × (length p ≡ n) × (s'.final ≡ s.final)
unfolding read_full
read_full-ok n s s' p h = ground (arith, take-append-drop n s.bytes, length-take n s.bytes)
