-- ===== src/Engine/Runs.antt =====
-- The runs of internal/tunnel/tunnel.go: order of the packets, the result, and the closing.
use mathlib.Core.Path.{subst}
use fortivpn_go.Prelude.{
  ℕ, ◌≡◌, refl, ◌⊎◌, inl, inr, Bool, true, false, Option, none, some, List, [], ◌∷◌, if◌then◌else◌,
  Bool-cases, &&-true,
}
use fortivpn_go.Engine.{
  CopyError, Loop, reading, writing, ended, Way, DeviceToTunnel, TunnelToDevice, out_call, in_call,
  copy_device_to_tunnel, copy_tunnel_to_device, End, tunnel_end, device_end, Engine, closed_once,
  close_all, is_benign, returning, result_of, Event, out_step, into_step, cancel, take_done,
  take_out, take_into, with_out, with_into, take_result, unreturned, is_running, step, Reach, start,
  next,
}
use fortivpn_go.Engine.Ways.{
  IsWay, first_way-IsWay, copy_device_to_tunnel-IsWay, copy_tunnel_to_device-IsWay,
}

abbrev pub HasEnded : Loop → Loop → CopyError → Type 0
HasEnded out into e = (out ≡ ended e) ⊎ (into ≡ ended e)

-- No error means that the context was cancelled, or that a loop ended with a cancellation or with
-- the end of its stream. An error is the one of a loop, and none of these.
abbrev Cause : Loop → Loop → Bool → Option CopyError → Type 0
Cause out into cancelled none =
    (cancelled ≡ true) ⊎ ((e : CopyError) × HasEnded out into e × (is_benign e ≡ true))
Cause out into cancelled (some e) = HasEnded out into e × (is_benign e ≡ false)

-- Both ends are open until the return, and then each was closed once, the tunnel first.
abbrev IsSettled : (Option CopyError → Type 0) → List End → Option (Option CopyError) → Type 0
IsSettled C closed none = closed ≡ []
IsSettled C closed (some r) = (closed ≡ tunnel_end ∷ device_end ∷ []) × C r

pub record IsEngine (room : ℕ) (s : Engine) : Type 0 where
  pub out : IsWay room s.out
  pub into : IsWay room s.into
  pub settled : IsSettled (Cause s.out.loop s.into.loop s.cancelled) s.closed s.returned

IsSettled-map :
    (C D : Option CopyError → Type 0) (closed : List End) (returned : Option (Option CopyError))
    → ((r : Option CopyError) → C r → D r)
    → IsSettled C closed returned
    → IsSettled D closed returned
IsSettled-map C D closed none f h = h
IsSettled-map C D closed (some r) f (e, c) = (e, f r c)

HasEnded-out :
    (out v into : Loop) (e : CopyError)
    → ((x : CopyError) → ¬ (out ≡ ended x))
    → HasEnded out into e
    → HasEnded v into e
HasEnded-out out v into e n (inl h) = absurd (n e h)
HasEnded-out out v into e n (inr h) = inr h

HasEnded-into :
    (out into v : Loop) (e : CopyError)
    → ((x : CopyError) → ¬ (into ≡ ended x))
    → HasEnded out into e
    → HasEnded out v e
HasEnded-into out into v e n (inl h) = inl h
HasEnded-into out into v e n (inr h) = absurd (n e h)

Cause-map :
    (out into out' into' : Loop) (c : Bool) (r : Option CopyError)
    → ((e : CopyError) → HasEnded out into e → HasEnded out' into' e)
    → Cause out into c r
    → Cause out' into' c r
Cause-map out into out' into' c none f (inl h) = inl h
Cause-map out into out' into' c none f (inr (e, h, b)) = inr (e, f e h, b)
Cause-map out into out' into' c (some e) f (h, b) = (f e h, b)

Cause-cancel :
    (out into : Loop) (c : Bool) (r : Option CopyError) → Cause out into c r → Cause out into true r
Cause-cancel out into c none (inl h) = inl refl
Cause-cancel out into c none (inr h) = inr h
Cause-cancel out into c (some e) h = h

-- A loop that has ended makes no further call.
ended_out :
    (room : ℕ) (w v : Way) (l : Loop) (call : DeviceToTunnel) (e : CopyError)
    → out_call room w l call ≡ some v
    → ¬ (l ≡ ended e)
ended_out room w v l call e h k = let m = rw k at h in cc

ended_into :
    (room : ℕ) (w v : Way) (l : Loop) (call : TunnelToDevice) (e : CopyError)
    → in_call room w l call ≡ some v
    → ¬ (l ≡ ended e)
ended_into room w v l call e h k = let m = rw k at h in cc

result_of-Cause :
    (out into : Loop) (c : Bool) (e : CopyError)
    → HasEnded out into e
    → Cause out into c (result_of e)
result_of-Cause out into c e h = elim (Bool-cases (is_benign e)) [
  | inl k ↦ rw k (inr (e, h, k))
  | inr k ↦ rw k (h, k)
]

-- The return closes both ends, if they are open until then.
returning-closed :
    (C : Option CopyError → Type 0) (closed : List End) (returned : Option (Option CopyError))
    → IsSettled C closed returned
    → unreturned returned ≡ true
    → closed_once (closed_once closed) ≡ tunnel_end ∷ device_end ∷ []
returning-closed C closed none k h = rw k refl
returning-closed C closed (some r) k h = cc

module _ (room : ℕ) (s : Engine) (i : IsEngine room s) where
  with_out-IsEngine :
      (t : Engine) (call : DeviceToTunnel) (r : Option Way)
      → copy_device_to_tunnel room s.out call ≡ r
      → with_out s r ≡ some t
      → IsEngine room t
  unfolding copy_device_to_tunnel
  with_out-IsEngine t call none e h = cc
  with_out-IsEngine t call (some v) e h = subst (IsEngine room) (same h) (record {
    out = copy_device_to_tunnel-IsWay room s.out v i.out call e;
    into = i.into;
    settled =
        IsSettled-map _ _ s.closed s.returned
          (λ r. Cause-map s.out.loop s.into.loop v.loop s.into.loop s.cancelled r (λ x.
            HasEnded-out s.out.loop v.loop s.into.loop x
              (λ y. ended_out room s.out v s.out.loop call y e)))
          i.settled;
  })
    where
      same : some (record s { out = v }) ≡ some t → record s { out = v } ≡ t
      same m = cc

  with_into-IsEngine :
      (t : Engine) (call : TunnelToDevice) (r : Option Way)
      → copy_tunnel_to_device room s.into call ≡ r
      → with_into s r ≡ some t
      → IsEngine room t
  unfolding copy_tunnel_to_device
  with_into-IsEngine t call none e h = cc
  with_into-IsEngine t call (some v) e h = subst (IsEngine room) (same h) (record {
    out = i.out;
    into = copy_tunnel_to_device-IsWay room s.into v i.into call e;
    settled =
        IsSettled-map _ _ s.closed s.returned
          (λ r. Cause-map s.out.loop s.into.loop s.out.loop v.loop s.cancelled r (λ x.
            HasEnded-into s.out.loop s.into.loop v.loop x
              (λ y. ended_into room s.into v s.into.loop call y e)))
          i.settled;
  })
    where
      same : some (record s { into = v }) ≡ some t → record s { into = v } ≡ t
      same m = cc

  returning-IsEngine :
      (r : Option CopyError)
      → is_running s ≡ true
      → Cause s.out.loop s.into.loop s.cancelled r
      → IsEngine room (returning s r)
  unfolding close_all
  returning-IsEngine r h c = record {
    out = i.out;
    into = i.into;
    settled = (
      returning-closed (Cause s.out.loop s.into.loop s.cancelled) s.closed s.returned i.settled h,
      c,
    );
  }

  take_result-IsEngine :
      (t : Engine) (l : Loop)
      → is_running s ≡ true
      → ((e : CopyError) → l ≡ ended e → HasEnded s.out.loop s.into.loop e)
      → take_result s l ≡ some t
      → IsEngine room t
  take_result-IsEngine t reading k f h = cc
  take_result-IsEngine t (writing p) k f h = cc
  take_result-IsEngine t (ended e) k f h = subst (IsEngine room) (same h) (
      returning-IsEngine (result_of e) k
        (result_of-Cause s.out.loop s.into.loop s.cancelled e (f e refl)))
    where
      same : some (returning s (result_of e)) ≡ some t → returning s (result_of e) ≡ t
      same m = cc

  if_running :
      (t : Engine) (b : Bool) (o : Option Engine)
      → (if b then o else none) ≡ some t
      → (b ≡ true) × (o ≡ some t)
  if_running t true o h = (refl, h)
  if_running t false o h = cc

  step-IsEngine : (t : Engine) (e : Event) → step room s e ≡ some t → IsEngine room t
  unfolding step
  step-IsEngine t (out_step call) h = with_out-IsEngine t call _ refl h
  step-IsEngine t (into_step call) h = with_into-IsEngine t call _ refl h
  step-IsEngine t cancel h = subst (IsEngine room) (same h) (record {
    out = i.out;
    into = i.into;
    settled =
        IsSettled-map _ _ s.closed s.returned (Cause-cancel s.out.loop s.into.loop s.cancelled)
          i.settled;
  })
    where
      same : some (record s { cancelled = true }) ≡ some t → record s { cancelled = true } ≡ t
      same m = cc
  step-IsEngine t take_done h =
      let (b, o) = if_running t _ (some (returning s none)) h in
      let (k, c) = &&-true (is_running s) s.cancelled b in
      subst (IsEngine room) (same o) (returning-IsEngine none k (inl c))
    where
      same : some (returning s none) ≡ some t → returning s none ≡ t
      same m = cc
  step-IsEngine t take_out h =
      let (k, o) = if_running t _ (take_result s s.out.loop) h in
      take_result-IsEngine t s.out.loop k (λ e m. inl m) o
  step-IsEngine t take_into h =
      let (k, o) = if_running t _ (take_result s s.into.loop) h in
      take_result-IsEngine t s.into.loop k (λ e m. inr m) o

-- Whatever the calls give and in whatever order the events come: in either direction the packets
-- that were read, but for the pending one, were given to a write once, in order and unchanged; they
-- fit the buffer, and those that are given to a write are IPv4 or IPv6. Both ends are open until
-- `Run` returns; then each was closed once, the tunnel first. `Run` returns no error only after a
-- cancellation or the end of a stream, and otherwise the error of a loop.
pub Reach-IsEngine : (room : ℕ) (s : Engine) → Reach room s → IsEngine room s
Reach-IsEngine room s start = record {
  out = first_way-IsWay room;
  into = first_way-IsWay room;
  settled = refl;
}
Reach-IsEngine room s (next r t e h k) = step-IsEngine room r (Reach-IsEngine room r h) t e k
