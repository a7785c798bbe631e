-- ===== src/Fortinet/Frame/Sound.antt =====
-- What `ReadPacket` accepts, and what `WritePacket` sends.
use mathlib.Core.List.{append_assoc}
use fortivpn_go.Prelude.{
  ℕ, ◌+◌, ◌-◌, ◌*◌, ◌≤◌, ◌≡◌, refl, sym, ap, ◌∙◌, ◌≢◌, ◌⊎◌, List, [], ◌∷◌, ◌++◌, arith, length,
  take, drop, All, length-append, All-front, Result, ok, err, text_eq_iff,
}
use fortivpn_go.Wire.{IsByte, put_u16, get_u16, IoError, Source, read_full, read_full-ok}
use mathlib.Core.Path.{subst}
use fortivpn_go.Fortinet.Frame.{
  header_length, magic_data, magic_control, FrameError, Frame, packet_version,
  ether_type_for_family, family_for_ether_type, parse_frame, read_body, read_head, read_frame,
  check_frame, check_read, read_packet,
}
use fortivpn_go.Fortinet.Frame.RoundTrip.{IsPacket, FitsFrame}

-- The frame of a packet, with any values in the two bytes that the format reserves.
abbrev pub frame_with : ℕ → ℕ → List ℕ → List ℕ
frame_with a b packet =
    put_u16 (header_length + length packet)
    ++ (magic_data
        ++ (put_u16 (length packet + 4)
            ++ (a ∷ b ∷ (put_u16 (ether_type_for_family (packet_version packet)) ++ packet))))

check_read-ok :
    (capacity : ℕ) (r : Result FrameError Frame × Source) (p : List ℕ) (s : Source)
    → check_read capacity r ≡ (ok p, s)
    → (f : Frame) × (r ≡ (ok f, s)) × (check_frame capacity f ≡ ok p)
check_read-ok capacity (err e, t) p s h = cc
check_read-ok capacity (ok f, t) p s h = (f, ground arith, ground arith)

read_body-ok :
    (head : List ℕ) (r : Result IoError (List ℕ) × Source) (f : Frame) (s : Source)
    → read_body head r ≡ (ok f, s)
    → (body : List ℕ) × (r ≡ (ok body, s)) × (parse_frame (head ++ body) ≡ ok f)
read_body-ok head (err e, t) f s h = cc
read_body-ok head (ok body, t) f s h = (body, ground arith, ground arith)

read_head-ok :
    (r : Result IoError (List ℕ) × Source) (f : Frame) (s : Source)
    → read_head r ≡ (ok f, s)
    → (head : List ℕ) × (t : Source) × (r ≡ (ok head, t))
      × (4 ≤ get_u16 head)
      × (read_body head (read_full (get_u16 head - 2) t) ≡ (ok f, s))
read_head-ok (err e, t) f s h = cc
read_head-ok (ok head, t) f s h = (head, t, refl, ground arith, ground arith)

get_u16-append : (head body : List ℕ) → length head ≡ 2 → get_u16 (head ++ body) ≡ get_u16 head
unfolding get_u16
get_u16-append (a ∷ b ∷ []) body h = refl
get_u16-append _ body h = absurd (omega arith)

-- A frame that was read is the front of the source, as long as its length field says.
read_frame-ok :
    (s s' : Source) (f : Frame)
    → read_frame s ≡ (ok f, s')
    → (raw : List ℕ) × (s.bytes ≡ raw ++ s'.bytes)
      × (parse_frame raw ≡ ok f)
      × (get_u16 raw ≡ length raw)
unfolding read_frame
read_frame-ok s s' f h =
    let (head, t, e, lo, k) = read_head-ok (read_full 2 s) f s' h in
    let (body, e', parsed) = read_body-ok head (read_full (get_u16 head - 2) t) f s' k in
    let (front, two, _) = read_full-ok 2 s t head e in
    let (back, more, _) = read_full-ok (get_u16 head - 2) t s' body e' in
    (
      head ++ body,
      front ∙ ap (λ (t : List ℕ). head ++ t) back ∙ sym (append_assoc head body s'.bytes),
      parsed,
      omega (arith, get_u16-append head body two, length-append head body),
    )

check_frame-ok :
    (capacity : ℕ) (f : Frame) (p : List ℕ)
    → check_frame capacity f ≡ ok p
    → (f.magic ≡ magic_data)
      × (f.payload ≡ p)
      × (length p ≤ capacity)
      × (f.payload_length ≡ length p + 4)
      × (family_for_ether_type f.ether_type ≢ 0)
      × (packet_version p ≡ family_for_ether_type f.ether_type)
unfolding check_frame
check_frame-ok capacity f p h = ground (arith, text_eq_iff f.magic magic_data)

ether_type_back :
    (e : ℕ)
    → family_for_ether_type e ≢ 0
    → (ether_type_for_family (family_for_ether_type e) ≡ e)
      × ((family_for_ether_type e ≡ 4) ⊎ (family_for_ether_type e ≡ 6))
unfolding family_for_ether_type ether_type_for_family
ether_type_back e h = ground arith

data_shape :
    (l k m n u v a b x y : ℕ) (q p : List ℕ)
    → All IsByte (l ∷ k ∷ m ∷ n ∷ u ∷ v ∷ a ∷ b ∷ x ∷ y ∷ q)
    → q ≡ p
    → m ∷ n ∷ [] ≡ magic_data
    → l * 256 + k ≡ header_length + length p
    → u * 256 + v ≡ length p + 4
    → x * 256 + y ≡ ether_type_for_family (packet_version p)
    → l ∷ k ∷ m ∷ n ∷ u ∷ v ∷ a ∷ b ∷ x ∷ y ∷ q ≡ frame_with a b p
unfolding put_u16
data_shape l k m n u v a b x y q p bytes e magic size size' ether =
    ground (arith, size, size', ether, bytes.0, bytes.1.0)

parse_frame-data :
    (l k m n u v a b x y : ℕ) (q : List ℕ) (f : Frame)
    → parse_frame (l ∷ k ∷ m ∷ n ∷ u ∷ v ∷ a ∷ b ∷ x ∷ y ∷ q) ≡ ok f
    → f.magic ≡ magic_data
    → (m ∷ n ∷ [] ≡ magic_data)
      × (f.payload ≡ q)
      × (f.payload_length ≡ u * 256 + v)
      × (f.ether_type ≡ x * 256 + y)
unfolding parse_frame get_u16
parse_frame-data l k m n u v a b x y q f parsed data_frame =
    ground (arith, text_eq_iff (m ∷ n ∷ []) magic_control)

parse_frame_sound :
    (capacity : ℕ) (raw p : List ℕ) (f : Frame)
    → All IsByte raw
    → get_u16 raw ≡ length raw
    → parse_frame raw ≡ ok f
    → check_frame capacity f ≡ ok p
    → (a : ℕ) × (b : ℕ) × (raw ≡ frame_with a b p)
      × IsPacket p
      × FitsFrame p
      × (length p ≤ capacity)
unfolding parse_frame check_frame get_u16
parse_frame_sound capacity (l ∷ k ∷ m ∷ n ∷ u ∷ v ∷ a ∷ b ∷ x ∷ y ∷ q) p f bytes size parsed
      checked =
    let (magic, payload, room, size', known, version) = check_frame-ok capacity f p checked in
    let (mn, fp, fl, fe) = parse_frame-data l k m n u v a b x y q f parsed magic in
    let (back, family) = ether_type_back f.ether_type known in
    (
      a,
      b,
      data_shape l k m n u v a b x y q p bytes (sym fp ∙ payload) mn
          (omega (arith, size, ap (λ (t : List ℕ). length t) (sym fp ∙ payload))) (omega arith)
          (ground arith),
      ground arith,
      omega (arith, size, bytes.0, bytes.1.0, ap (λ (t : List ℕ). length t) (sym fp ∙ payload)),
      room,
    )
parse_frame_sound capacity raw p f bytes size parsed checked = absurd (
    ground (
      arith,
      text_eq_iff (take 2 (drop 2 raw)) magic_control,
      text_eq_iff (take 2 (drop 2 raw)) magic_data,
    ))

-- `ReadPacket` accepts only what `WritePacket` writes, up to the two reserved bytes: from a source
-- of bytes, an accepted packet is an IPv4 or IPv6 packet that fits the destination and a frame, and
-- the source began with its frame and goes on with what is left for the next call.
pub read_packet_sound :
    (capacity : ℕ) (s s' : Source) (p : List ℕ)
    → All IsByte s.bytes
    → read_packet (ok tt) capacity s ≡ (ok p, s')
    → (a : ℕ) × (b : ℕ) × (s.bytes ≡ frame_with a b p ++ s'.bytes)
      × IsPacket p
      × FitsFrame p
      × (length p ≤ capacity)
unfolding read_packet
read_packet_sound capacity s s' p bytes h =
    let (f, e, checked) = check_read-ok capacity (read_frame s) p s' h in
    let (raw, front, parsed, size) = read_frame-ok s s' f e in
    let (a, b, shape, packet, fits, room) =
      parse_frame_sound capacity raw p f
        (All-front IsByte raw s'.bytes (subst (All IsByte) front bytes)) size parsed checked in
    (a, b, front ∙ ap (λ (t : List ℕ). t ++ s'.bytes) shape, packet, fits, room)
