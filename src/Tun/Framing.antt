-- ===== src/Tun/Framing.antt =====
-- `IPVersion` of internal/tun/tun.go and the framing of internal/tun/utun_darwin.go.
use fortivpn_go.Prelude.{
  ℕ, zero, suc, ◌+◌, ◌/◌, ◌≤◌, ◌<◌, ◌≡◌, refl, ap, ◌⊎◌, inl, inr, false, Option, none, some, List,
  [], ◌∷◌, arith, ltb, leb, ◌==◌, if◌then◌else◌, le→ltb, length, take, drop, Result, err, ok,
}

unfoldable pub ip_version : List ℕ → ℕ
ip_version [] = 0
ip_version (b ∷ packet) = b / 16

abbrev pub utun_header_size : ℕ
utun_header_size = 4

-- The family in four bytes, AF_INET (2) or AF_INET6 (30), and the packet.
abbrev pub family_frame : ℕ → List ℕ → Option (List ℕ)
family_frame version packet =
    if version == 4
    then some (0 ∷ 0 ∷ 0 ∷ 2 ∷ packet)
    else if version == 6
    then some (0 ∷ 0 ∷ 0 ∷ 30 ∷ packet)
    else none

unfoldable pub frame_packet : List ℕ → Option (List ℕ)
unfolding ip_version
frame_packet packet = family_frame (ip_version packet) packet

pub data ReadError : Type 0 where
  short_buffer unexpected_end failed : ReadError

-- `utun.Read` into `room` bytes, from what the file gives: the frame that is there, of which at most
-- `room` bytes arrive, or an error with no bytes.
unfoldable pub read_utun : ℕ → Option (List ℕ) → Result ReadError (List ℕ)
read_utun room none = if ltb room (suc utun_header_size) then err short_buffer else err failed
read_utun room (some frame) =
    if ltb room (suc utun_header_size)
    then err short_buffer
    else if leb (length (take room frame)) utun_header_size
    then err unexpected_end
    else ok (drop utun_header_size (take room frame))

take_all : (n : ℕ) (xs : List ℕ) → length xs ≤ n → take n xs ≡ xs
take_all zero [] h = refl
take_all zero (x ∷ xs) h = ground arith
take_all (suc n) [] h = refl
take_all (suc n) (x ∷ xs) h = ap (λ (l : List ℕ). x ∷ l) (take_all n xs (omega (arith, h)))

leb-false : (a b : ℕ) → b < a → leb a b ≡ false
leb-false a b h = ground arith

-- The family in front of a packet does not matter to `Read`.
read_framed :
    (room a b c d : ℕ) (packet : List ℕ)
    → 4 + length packet ≤ room
    → 0 < length packet
    → read_utun room (some (a ∷ b ∷ c ∷ d ∷ packet)) ≡ ok packet
unfolding read_utun
read_framed room a b c d packet h k =
    let frame = a ∷ b ∷ c ∷ d ∷ packet in
    rw
      (
        le→ltb room 5 (omega (arith, h, k)),
        take_all room frame (omega (arith, h)),
        leb-false (length frame) 4 (omega (arith, k)),
      )
      refl

family_frame-cases :
    (version : ℕ) (packet frame : List ℕ)
    → family_frame version packet ≡ some frame
    → ((version ≡ 4) × (frame ≡ 0 ∷ 0 ∷ 0 ∷ 2 ∷ packet))
      ⊎ ((version ≡ 6) × (frame ≡ 0 ∷ 0 ∷ 0 ∷ 30 ∷ packet))
family_frame-cases version packet frame h = ground (arith, h)

-- `Write` frames only a packet of version 4 or 6, with four bytes in front, and `Read` gives that
-- packet back from the frame, into any buffer that has room for the frame.
pub read_utun-frame_packet :
    (room : ℕ) (packet frame : List ℕ)
    → frame_packet packet ≡ some frame
    → length frame ≤ room
    → (read_utun room (some frame) ≡ ok packet)
      × (length frame ≡ 4 + length packet)
      × ((ip_version packet ≡ 4) ⊎ (ip_version packet ≡ 6))
unfolding frame_packet ip_version
read_utun-frame_packet room [] frame h l = cc
read_utun-frame_packet room (b ∷ packet) frame h l =
    elim (family_frame-cases (b / 16) (b ∷ packet) frame h) [
      | inl (v, e) ↦ (
        rw e (read_framed room 0 0 0 2 (b ∷ packet) (omega (arith, rw e at l)) (omega arith)),
        rw e (omega arith),
        inl v,
      )
      | inr (v, e) ↦ (
        rw e (read_framed room 0 0 0 30 (b ∷ packet) (omega (arith, rw e at l)) (omega arith)),
        rw e (omega arith),
        inr v,
      )
    ]
