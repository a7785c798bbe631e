-- ===== src/Engine/Ways.antt =====
-- The copy loops of internal/tunnel/tunnel.go: what has been read and what has been written.
use mathlib.Core.List.{append-nil}
use mathlib.Core.Path.{subst}
use fortivpn_go.Prelude.{
  ℕ, ◌≤◌, ◌≡◌, refl, ◌∙◌, ◌⊎◌, inl, inr, true, false, Option, none, some, List, [], ◌∷◌, ◌++◌,
  arith, leb, ◌==◌, Bool-cases, length, All, All-append, Result, err, ok,
}
use fortivpn_go.Tun.Framing.{ip_version}
use fortivpn_go.Engine.{
  Packet, Fault, CopyError, read_failed, write_failed, unsupported_packet, short_write,
  validate_packet, Loop, reading, writing, ended, Way, first_way, after_read, after_packet_write,
  fits, reads, packet_written, bytes_written, DeviceToTunnel, device_read, tunnel_write,
  TunnelToDevice, tunnel_read, device_write, out_call, in_call, copy_device_to_tunnel,
  copy_tunnel_to_device,
}

abbrev pub IsIp : Packet → Type 0
IsIp p = (ip_version p ≡ 4) ⊎ (ip_version p ≡ 6)

-- The packets that were read and not given to a write: the one that the loop is about to write, or
-- the last one, if it is not an IP packet.
abbrev pub IsPending : Loop → List Packet → Type 0
IsPending reading ps = ps ≡ []
IsPending (writing p) ps = (ps ≡ p ∷ []) × IsIp p
IsPending (ended unsupported_packet) ps = (p : Packet) × (ps ≡ p ∷ []) × ¬ IsIp p
IsPending (ended (read_failed f)) ps = ps ≡ []
IsPending (ended (write_failed f)) ps = ps ≡ []
IsPending (ended short_write) ps = ps ≡ []

-- All packets that were read were given to a write once and in order, but for the pending one; they
-- are IP packets and fit the buffer.
pub record IsWay (room : ℕ) (w : Way) : Type 0 where
  pub pending : List Packet
  pub order : w.read ≡ w.handed ++ pending
  pub supported : All IsIp w.handed
  pub fitting : All (λ p. length p ≤ room) w.read
  pub held : IsPending w.loop pending

validate_packet-IsIp : (p : Packet) → validate_packet p ≡ true → IsIp p
unfolding validate_packet
validate_packet-IsIp p h = ground arith

validate_packet-unsupported : (p : Packet) → validate_packet p ≡ false → ¬ IsIp p
unfolding validate_packet
validate_packet-unsupported p h = ground arith

pub first_way-IsWay : (room : ℕ) → IsWay room first_way
first_way-IsWay room = record {
  pending = [];
  order = refl;
  supported = tt;
  fitting = tt;
  held = refl;
}

le-leb : (a b : ℕ) → leb a b ≡ true → a ≤ b
le-leb a b h = ground arith

abbrev IsOver : Option CopyError → Type 0
IsOver none = Unit {0}
IsOver (some e) = IsPending (ended e) []

packet_written-IsOver : (r : Option Fault) → IsOver (packet_written r)
packet_written-IsOver none = tt
packet_written-IsOver (some f) = refl

bytes_written-IsOver : (p : Packet) (r : Result Fault ℕ) → IsOver (bytes_written p r)
bytes_written-IsOver p (err f) = refl
bytes_written-IsOver p (ok n) = elim (Bool-cases (n == length p)) [
  | inl h ↦ rw h tt
  | inr h ↦ rw h refl
]

module _ (room : ℕ) (w : Way) (i : IsWay room w) where
  read-order : (p : Packet) → i.pending ≡ [] → w.read ++ (p ∷ []) ≡ w.handed ++ (p ∷ [])
  read-order p e = rw (i.order, e, append-nil w.handed) refl

  after_read-IsWay :
      (r : Result Fault Packet) → i.pending ≡ [] → fits room r ≡ true → IsWay room (after_read w r)
  after_read-IsWay (err f) e k = record {
    pending = [];
    order = i.order ∙ rw e refl;
    supported = i.supported;
    fitting = i.fitting;
    held = refl;
  }
  after_read-IsWay (ok p) e k =
      let o = read-order p e in
      let a =
        All-append (λ (q : Packet). length q ≤ room) w.read (p ∷ []) i.fitting
          (le-leb (length p) room k, tt) in
      elim (Bool-cases (validate_packet p)) [
        | inl h ↦ rw h (record {
          pending = p ∷ [];
          order = o;
          supported = i.supported;
          fitting = a;
          held = (refl, validate_packet-IsIp p h);
        })
        | inr h ↦ rw h (record {
          pending = p ∷ [];
          order = o;
          supported = i.supported;
          fitting = a;
          held = (p, refl, validate_packet-unsupported p h);
        })
      ]

  written-order : (p : Packet) → i.pending ≡ p ∷ [] → w.read ≡ (w.handed ++ (p ∷ [])) ++ []
  written-order p e = i.order ∙ rw (e, append-nil (w.handed ++ (p ∷ []))) refl

  after_packet_write-IsWay :
      (p : Packet) (e : Option CopyError)
      → (i.pending ≡ p ∷ []) × IsIp p
      → IsOver e
      → IsWay room (after_packet_write w p e)
  after_packet_write-IsWay p none (l, h) o = record {
    pending = [];
    order = written-order p l;
    supported = All-append IsIp w.handed (p ∷ []) i.supported (h, tt);
    fitting = i.fitting;
    held = refl;
  }
  after_packet_write-IsWay p (some e) (l, h) o = record {
    pending = [];
    order = written-order p l;
    supported = All-append IsIp w.handed (p ∷ []) i.supported (h, tt);
    fitting = i.fitting;
    held = o;
  }

  reads-IsWay :
      (r : Result Fault Packet) (v : Way) → i.pending ≡ [] → reads room w r ≡ some v → IsWay room v
  reads-IsWay r v e h = elim (Bool-cases (fits room r)) [
    | inl k ↦ subst (IsWay room) (given (rw k at h)) (after_read-IsWay r e k)
    | inr k ↦ let n = rw k at h in cc
  ]
    where
      given : some (after_read w r) ≡ some v → after_read w r ≡ v
      given m = cc

given : (u v : Way) → some u ≡ some v → u ≡ v
given u v h = cc

module _ (room : ℕ) (w v : Way) (i : IsWay room w) where
  out_call-IsWay :
      (l : Loop) (call : DeviceToTunnel)
      → IsPending l i.pending
      → out_call room w l call ≡ some v
      → IsWay room v
  out_call-IsWay reading (device_read r) p h = reads-IsWay room w i r v p h
  out_call-IsWay reading (tunnel_write r) p h = cc
  out_call-IsWay (writing q) (device_read r) p h = cc
  out_call-IsWay (writing q) (tunnel_write r) p h =
      subst (IsWay room) (given _ v h)
        (after_packet_write-IsWay room w i q (packet_written r) p (packet_written-IsOver r))
  out_call-IsWay (ended e) call p h = cc

  in_call-IsWay :
      (l : Loop) (call : TunnelToDevice)
      → IsPending l i.pending
      → in_call room w l call ≡ some v
      → IsWay room v
  in_call-IsWay reading (tunnel_read r) p h = reads-IsWay room w i r v p h
  in_call-IsWay reading (device_write r) p h = cc
  in_call-IsWay (writing q) (tunnel_read r) p h = cc
  in_call-IsWay (writing q) (device_write r) p h =
      subst (IsWay room) (given _ v h)
        (after_packet_write-IsWay room w i q (bytes_written q r) p (bytes_written-IsOver q r))
  in_call-IsWay (ended e) call p h = cc

  pub copy_device_to_tunnel-IsWay :
      (call : DeviceToTunnel) → copy_device_to_tunnel room w call ≡ some v → IsWay room v
  unfolding copy_device_to_tunnel
  copy_device_to_tunnel-IsWay call h = out_call-IsWay w.loop call i.held h

  pub copy_tunnel_to_device-IsWay :
      (call : TunnelToDevice) → copy_tunnel_to_device room w call ≡ some v → IsWay room v
  unfolding copy_tunnel_to_device
  copy_tunnel_to_device-IsWay call h = in_call-IsWay w.loop call i.held h
