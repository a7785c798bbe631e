-- ===== src/Engine/Examples.antt =====
-- A run that forwards a packet and ends with the tunnel's stream, and the theorems at it.
use mathlib.Core.Path.{subst}
use fortivpn_go.Prelude.{ℕ, ◌≡◌, refl, false, Option, none, some, List, [], ◌∷◌, err, ok}
use fortivpn_go.Tun.Framing.{ip_version}
use fortivpn_go.Engine.{
  Packet, eof, read_failed, validate_packet, reading, ended, device_read, tunnel_write, tunnel_read,
  copy_device_to_tunnel, copy_tunnel_to_device, tunnel_end, device_end, Engine, first_engine,
  close_all, is_benign, Event, out_step, into_step, take_into, step, Reach, start, next,
}
use fortivpn_go.Engine.Runs.{IsEngine, Reach-IsEngine}

abbrev packet : Packet
packet = 0x45 ∷ 1 ∷ 2 ∷ []

abbrev room : ℕ
room = 1500

unfoldable ran : Option Engine → List Event → Option Engine
unfolding step
ran none es = none
ran (some s) [] = some s
ran (some s) (e ∷ es) = ran (step room s e) es

ran-Reach :
    (o : Option Engine) (es : List Event) (t : Engine)
    → ((u : Engine) → o ≡ some u → Reach room u)
    → ran o es ≡ some t
    → Reach room t
unfolding ran
ran-Reach none es t r h = cc
ran-Reach (some s) [] t r h = r t h
ran-Reach (some s) (e ∷ es) t r h =
    ran-Reach (step room s e) es t (λ u k. next s u e (r s refl) k) h

abbrev forwarded : List Event
forwarded =
    out_step (device_read (ok packet))
    ∷ out_step (tunnel_write none)
    ∷ into_step (tunnel_read (err eof))
    ∷ []

abbrev ended_engine : Engine
ended_engine = record {
  out = record { loop = reading; read = packet ∷ []; handed = packet ∷ [] };
  into = record { loop = ended (read_failed eof); read = []; handed = [] };
  cancelled = false;
  closed = [];
  returned = none;
}

ran-forwarded : ran (some first_engine) forwarded ≡ some ended_engine
unfolding ran step copy_device_to_tunnel copy_tunnel_to_device validate_packet ip_version
ran-forwarded = refl

ended-reached : Reach room ended_engine
ended-reached =
    ran-Reach (some first_engine) forwarded ended_engine
      (λ u k. subst (Reach room) (same u k) start) ran-forwarded
  where
    same : (u : Engine) → some first_engine ≡ some u → first_engine ≡ u
    same u k = cc

Reach-IsEngine_example : IsEngine room ended_engine
Reach-IsEngine_example = Reach-IsEngine room ended_engine ended-reached

-- The end of a stream is no error.
returned-eof :
    ran (some ended_engine) (take_into ∷ [])
    ≡ some (record ended_engine { closed = tunnel_end ∷ device_end ∷ []; returned = some none })
unfolding ran step close_all is_benign
returned-eof = refl
