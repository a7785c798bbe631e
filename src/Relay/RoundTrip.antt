-- ===== src/Relay/RoundTrip.antt =====
-- Records written by `WriteFrame` come back from `ReadFrame`, and datagrams cross two relays.
use mathlib.Core.List.{append_assoc}
use fortivpn_go.Prelude.{
  ℕ, zero, suc, ◌+◌, ◌-◌, ◌≤◌, ◌<◌, ◌≡◌, refl, ap, ◌∙◌, inl, inr, true, List, [], ◌∷◌, ◌++◌, arith,
  if◌then◌else◌, Bool-cases, length, All, length-append, ok, err,
}
use fortivpn_go.Wire.{
  put_u16, get_u16, IoError, Source, read_full, WriteOutcome, get_u16-put_u16, read_full-append,
}
use fortivpn_go.Wire.Writes.{IsSteady, write_all_steady}
use fortivpn_go.Relay.{
  max_payload, RecordError, record_io, read_payload, read_record_loop, read_record, record_bytes,
  write_record, is_keepalive, outbound, inbound_next, inbound_loop, inbound,
}

-- The payloads that a record can carry.
abbrev pub FitsRecord : List ℕ → Type 0
FitsRecord p = (0 < length p) × (length p ≤ max_payload)

-- `k` records with no payload, which the RFC allows anywhere.
abbrev pub empty_records : ℕ → List ℕ
empty_records zero = []
empty_records (suc k) = 0 ∷ 2 ∷ empty_records k

header_read :
    (n : ℕ) (rest : List ℕ) (e : IoError)
    → read_full 2 (record { bytes = put_u16 n ++ rest; final = e })
      ≡ (ok (put_u16 n), record { bytes = rest; final = e })
unfolding put_u16
header_read n rest e = read_full-append (put_u16 n) rest e

payload_read :
    (p rest : List ℕ) (e : IoError) (n : ℕ)
    → length p ≡ n
    → read_payload (read_full n (record { bytes = p ++ rest; final = e }))
      ≡ (ok p, record { bytes = rest; final = e })
payload_read p rest e n h = rw (← h) (rw (read_full-append p rest e))

loop-record_bytes :
    (fuel : ℕ) (p rest : List ℕ) (e : IoError)
    → FitsRecord p
    → read_record_loop (suc fuel) (record { bytes = record_bytes p ++ rest; final = e })
      ≡ (ok p, record { bytes = rest; final = e })
unfolding read_record_loop record_bytes
loop-record_bytes fuel p rest e h =
    rw (append_assoc, header_read (length p + 2) (p ++ rest) e)
      (ground (
        arith,
        get_u16-put_u16 (length p + 2),
        payload_read p rest e (length p + 2 - 2) (omega arith),
      ))

empty_header :
    (rest : List ℕ) (e : IoError)
    → read_full 2 (record { bytes = 0 ∷ 2 ∷ rest; final = e })
      ≡ (ok (0 ∷ 2 ∷ []), record { bytes = rest; final = e })
empty_header rest e = read_full-append (0 ∷ 2 ∷ []) rest e

empty_round :
    (fuel : ℕ) (rest : List ℕ) (e : IoError)
    → read_record_loop (suc fuel) (record { bytes = 0 ∷ 2 ∷ rest; final = e })
      ≡ read_record_loop fuel (record { bytes = rest; final = e })
empty_round fuel rest e =
    unfold read_record_loop in rw (empty_header rest e) (unfold get_u16 in refl)

loop-empty_records :
    (k fuel : ℕ) (p rest : List ℕ) (e : IoError)
    → FitsRecord p
    → k ≤ fuel
    → read_record_loop
        (suc fuel)
        (record { bytes = empty_records k ++ (record_bytes p ++ rest); final = e })
      ≡ (ok p, record { bytes = rest; final = e })
loop-empty_records zero fuel p rest e h le = loop-record_bytes fuel p rest e h
loop-empty_records (suc k) zero p rest e h le = absurd (omega arith)
loop-empty_records (suc k) (suc fuel) p rest e h le =
    empty_round (suc fuel) (empty_records k ++ (record_bytes p ++ rest)) e
    ∙ loop-empty_records k fuel p rest e h (omega arith)

length-empty_records : (k : ℕ) → length (empty_records k) ≡ k + k
length-empty_records zero = omega arith
length-empty_records (suc k) = omega (arith, length-empty_records k)

-- Whatever number of empty records stands before it, `ReadFrame` returns the payload that
-- `WriteFrame` put in a record, and leaves what follows, for every payload that a record can carry.
pub read_record-record_bytes :
    (k : ℕ) (p rest : List ℕ) (e : IoError)
    → FitsRecord p
    → read_record (record { bytes = empty_records k ++ (record_bytes p ++ rest); final = e })
      ≡ (ok p, record { bytes = rest; final = e })
unfolding read_record
read_record-record_bytes k p rest e h =
    loop-empty_records k (length (empty_records k ++ (record_bytes p ++ rest))) p rest e h (
      omega
        (arith, length-append (empty_records k) (record_bytes p ++ rest), length-empty_records k))

-- The datagrams that are not keepalives.
unfoldable pub carried : List (List ℕ) → List (List ℕ)
carried [] = []
carried (p ∷ rest) = let others = carried rest in if is_keepalive p then others else p ∷ others

-- The records of some datagrams, one after the other.
unfoldable pub records : List (List ℕ) → List ℕ
records [] = []
records (p ∷ rest) = record_bytes p ++ records rest

write_record_steady :
    (writer : ℕ → WriteOutcome) (p : List ℕ)
    → IsSteady writer
    → FitsRecord p
    → write_record writer p ≡ (ok tt, record_bytes p)
unfolding write_record
write_record_steady writer p steady h =
    rw (write_all_steady writer (record_bytes p) steady) (ground arith)

-- Over a connection that takes bytes, `outbound` sends the records of the datagrams that are not
-- keepalives, in order, and nothing else.
pub outbound-records :
    (connection : ℕ → ℕ → WriteOutcome) (ds : List (List ℕ))
    → ((k : ℕ) → IsSteady (connection k))
    → All FitsRecord ds
    → outbound connection ds ≡ (ok tt, records (carried ds))
unfolding outbound carried records
outbound-records connection [] steady h = refl
outbound-records connection (p ∷ rest) steady h = elim (Bool-cases (is_keepalive p)) [
  | inl e ↦ rw e (outbound-records connection rest steady h.1)
  | inr e ↦ rw (
    e,
    write_record_steady (connection (length rest)) p (steady (length rest)) h.0,
    outbound-records connection rest steady h.1,
  )
]

read_record_first :
    (p rest : List ℕ) (e : IoError)
    → FitsRecord p
    → read_record (record { bytes = record_bytes p ++ rest; final = e })
      ≡ (ok p, record { bytes = rest; final = e })
read_record_first p rest e h = read_record-record_bytes 0 p rest e h

read_record_end :
    (e : IoError)
    → read_record (record { bytes = []; final = e })
      ≡ (err (record_io e), record { bytes = []; final = e })
unfolding read_record read_record_loop read_full
read_record_end e = refl

length-records : (ds : List (List ℕ)) → length ds ≤ length (records ds)
unfolding records record_bytes put_u16
length-records [] = omega arith
length-records (p ∷ rest) = omega (arith, length-records rest, length-append p (records rest))

deliver_first :
    (p : List ℕ) (s : Source) (next : Source → RecordError × List (List ℕ)) (ds : List (List ℕ))
    (e : RecordError)
    → next s ≡ (e, ds)
    → inbound_next (λ _. true) (ok p, s) next ≡ (e, if is_keepalive p then ds else p ∷ ds)
unfolding inbound_next
deliver_first p s next ds e h = ground arith

loop-records :
    (fuel : ℕ) (ds : List (List ℕ)) (e : IoError)
    → All FitsRecord ds
    → length ds ≤ fuel
    → inbound_loop (suc fuel) (λ _. true) (record { bytes = records ds; final = e })
      ≡ (record_io e, carried ds)
unfolding inbound_loop records carried
loop-records fuel [] e h le = rw (read_record_end e)
loop-records zero (p ∷ rest) e h le = absurd (omega arith)
loop-records (suc fuel) (p ∷ rest) e h le =
    unfold records carried in
    rw (read_record_first p (records rest) e h.0) (
      deliver_first p (record { bytes = records rest; final = e })
        (λ s. inbound_loop (suc fuel) (λ _. true) s) (carried rest) (record_io e)
        (loop-records fuel rest e h.1 (omega arith)))

carried_idem : (ds : List (List ℕ)) → carried (carried ds) ≡ carried ds
unfolding carried
carried_idem [] = refl
carried_idem (p ∷ rest) = elim (Bool-cases (is_keepalive p)) [
  | inl e ↦ rw e (carried_idem rest)
  | inr e ↦ rw e (rw (e, carried_idem rest))
]

All-carried : (ds : List (List ℕ)) → All FitsRecord ds → All FitsRecord (carried ds)
unfolding carried
All-carried [] h = tt
All-carried (p ∷ rest) h = elim (Bool-cases (is_keepalive p)) [
  | inl e ↦ rw e (All-carried rest h.1)
  | inr e ↦ rw e (h.0, All-carried rest h.1)
]

-- Datagrams that fit a record cross two relays: what one relay sends over a connection that takes
-- bytes, the other delivers to a daemon that takes datagrams, all but the keepalives, in order,
-- and then ends as the connection ends.
pub inbound-outbound :
    (connection : ℕ → ℕ → WriteOutcome) (ds : List (List ℕ)) (e : IoError)
    → ((k : ℕ) → IsSteady (connection k))
    → All FitsRecord ds
    → ((outbound connection ds).0 ≡ ok tt)
      × (inbound (λ _. true) (record { bytes = (outbound connection ds).1; final = e })
          ≡ (record_io e, carried ds))
unfolding inbound
inbound-outbound connection ds e steady h = rw (outbound-records connection ds steady h) (
  refl,
  loop-records (length (records (carried ds))) (carried ds) e (All-carried ds h)
        (length-records (carried ds))
      ∙ ap (λ (l : List (List ℕ)). (record_io e, l)) (carried_idem ds),
)
