-- ===== src/Fortinet/Frame/Sent.antt =====
-- What `WritePacket` hands to the connection.
use fortivpn_go.Prelude.{
  ℕ, ◌+◌, ◌≡◌, refl, ap, ◌∙◌, ◌↔◌, inl, inr, List, [], ◌++◌, arith, ltb, ◌==◌, Bool-cases, length,
  Result, ok, err,
}
use fortivpn_go.Wire.{WriteOutcome, WriteError, write_all}
use fortivpn_go.Wire.Writes.{SentFront, IsSteady, write_all-SentFront, write_all_steady}
use fortivpn_go.Fortinet.Frame.{
  header_length, max_frame_size, SendError, unsupported_version, packet_too_large, packet_version,
  ether_type_for_family, send_result, send_after, write_packet,
}
use fortivpn_go.Fortinet.Frame.RoundTrip.{IsPacket, frame_of, FitsFrame}

no_ether_type :
    (packet : List ℕ) → (ether_type_for_family (packet_version packet) ≡ 0) ↔ (¬ (IsPacket packet))
unfolding ether_type_for_family
no_ether_type packet = ground arith

-- The tests of `WritePacket` pass, so the frame goes to `writeAll`.
write_packet-frame :
    (deadline : Result SendError (Unit {0})) (writer : ℕ → WriteOutcome) (packet : List ℕ)
    → IsPacket packet
    → FitsFrame packet
    → write_packet deadline writer packet ≡ send_after deadline writer (frame_of packet)
unfolding write_packet
write_packet-frame deadline writer packet h fits = ground (arith, no_ether_type packet)

-- Other packets are refused, and send nothing.
pub write_packet_not_ip :
    (deadline : Result SendError (Unit {0})) (writer : ℕ → WriteOutcome) (packet : List ℕ)
    → ¬ (IsPacket packet)
    → write_packet deadline writer packet ≡ (err unsupported_version, [])
unfolding write_packet
write_packet_not_ip deadline writer packet h = ground (arith, no_ether_type packet)

pub write_packet_too_large :
    (deadline : Result SendError (Unit {0})) (writer : ℕ → WriteOutcome) (packet : List ℕ)
    → IsPacket packet
    → ¬ (FitsFrame packet)
    → write_packet deadline writer packet ≡ (err packet_too_large, [])
unfolding write_packet
write_packet_too_large deadline writer packet h k = ground (arith, no_ether_type packet)

-- A packet of either family that fits a frame is sent whole by a steady writer.
pub write_packet_sent :
    (writer : ℕ → WriteOutcome) (packet : List ℕ)
    → IsSteady writer
    → IsPacket packet
    → FitsFrame packet
    → write_packet (ok tt) writer packet ≡ (ok tt, frame_of packet)
write_packet_sent writer packet steady h fits =
    write_packet-frame (ok tt) writer packet h fits
    ∙ ap send_result (write_all_steady writer (frame_of packet) steady)

send_result-front :
    (frame : List ℕ) (r : Result WriteError (Unit {0}) × List ℕ)
    → SentFront frame r
    → (rest : List ℕ) × (frame ≡ (send_result r).1 ++ rest)
      × ((send_result r).0 ≡ ok tt → rest ≡ [])
send_result-front frame (ok u, sent) (rest, e, h) = (rest, e, λ _. h refl)
send_result-front frame (err e, sent) (rest, f, h) = (rest, f, λ k. cc)

send_after-front :
    (deadline : Result SendError (Unit {0})) (writer : ℕ → WriteOutcome) (frame : List ℕ)
    → (rest : List ℕ) × (frame ≡ (send_after deadline writer frame).1 ++ rest)
      × ((send_after deadline writer frame).0 ≡ ok tt → rest ≡ [])
send_after-front (err e) writer frame = (frame, refl, λ k. cc)
send_after-front (ok u) writer frame =
    send_result-front frame (write_all writer frame) (write_all-SentFront writer frame)

-- Whatever the connection does, what reaches it is a front of the packet's frame, and the whole
-- frame when `WritePacket` succeeds.
pub write_packet-front :
    (deadline : Result SendError (Unit {0})) (writer : ℕ → WriteOutcome) (packet : List ℕ)
    → (rest : List ℕ) × (frame_of packet ≡ (write_packet deadline writer packet).1 ++ rest)
      × ((write_packet deadline writer packet).0 ≡ ok tt → rest ≡ [])
unfolding write_packet
write_packet-front deadline writer packet =
    elim (Bool-cases (ether_type_for_family (packet_version packet) == 0)) [
      | inl e ↦ rw e (frame_of packet, refl, λ k. cc)
      | inr e ↦ rw e (elim (Bool-cases (ltb max_frame_size (length packet + header_length))) [
        | inl f ↦ rw f (frame_of packet, refl, λ k. cc)
        | inr f ↦ rw f (send_after-front deadline writer (frame_of packet))
      ])
    ]
