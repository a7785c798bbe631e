-- ===== src/Ipsec/Backend/Cleanup.antt =====
-- `Connect` of internal/ipsec/backend.go: nothing stays behind in the daemon.
use fortivpn_go.Prelude.{
  ℕ, ◌≡◌, refl, Bool, true, false, Option, none, some, List, [], ◌++◌, if◌then◌else◌, All, ok, err,
  Text, codes, text_eq,
}
use fortivpn_go.Netip.{AddrText}
use fortivpn_go.Network.{is_nil}
use fortivpn_go.Ipsec.Options.{Options, tcp}
use fortivpn_go.Ipsec.Backend.{
  Command, get_conns, get_shared, Daemon, Connection, World, Step, check_unused, and_then, inspect,
  check_all_unused, preflight, close, Setup, setup, new_connection, finish, connect_through,
  connect_by, connect,
}
use fortivpn_go.Ipsec.Backend.Close.{IsCleanup, IsTracked, IsUndone, close-IsUndone}
use fortivpn_go.Ipsec.Backend.Setup.{Tracks, All-map, setup-Tracks}

-- Of all that was sent, what changed the daemon is undone by a later command, and the relay is
-- closed.
pub record IsClean (w : World) : Type 0 where
  pub later : List Command
  pub earlier : List Command
  pub split : w.sent ≡ later ++ earlier
  pub undone : All (IsUndone later) earlier
  pub cleanup : All IsCleanup later
  pub relay_closed : w.relay_open ≡ false

-- A command that changes nothing.
abbrev IsHarmless : Command → Type 0
IsHarmless c = ((s : Connection) → IsTracked s c) × IsUndone [] c

-- The world after a `Connect` that failed, or after one that succeeded and the `Close` of its connection.
module _ (daemon : Daemon) (net : AddrText) (o : Options) where
  abbrev pub released : Step Connection → World
  released (ok s, w) = (close daemon net o s w).1
  released (err e, w) = w

  -- Only harmless commands were sent.
  abbrev IsFresh : World → Type 0
  IsFresh w = All IsHarmless w.sent × (w.relay_open ≡ false)

  fresh-IsClean : (w : World) → IsFresh w → IsClean w
  fresh-IsClean w (h, r) = record {
    later = [];
    earlier = w.sent;
    split = refl;
    undone = All-map (λ c k. k.1) w.sent h;
    cleanup = tt;
    relay_closed = r;
  }

  closed-IsClean : (s : Connection) (w : World) → Tracks s w → IsClean (close daemon net o s w).1
  closed-IsClean s w t =
      let (later, q, e, r, f) = close-IsUndone daemon net o s w t.opened in
      record {
        later = later;
        earlier = w.sent;
        split = e;
        undone = All-map f w.sent t.covered;
        cleanup = q;
        relay_closed = r;
      }

  finish-IsClean :
      (m : Setup daemon net o) → Tracks m.1 m.2 → IsClean (released (finish daemon net o m))
  finish-IsClean (ok a, s, w) t = closed-IsClean s w t
  finish-IsClean (err e, s, w) t = closed-IsClean s w t

  connect_through-IsClean :
      (relay : Option ℕ) (token : Option Text) (canceled' : Bool) (w : World)
      → All IsHarmless w.sent
      → IsClean (released (connect_through daemon net o relay token canceled' w))
  connect_through-IsClean relay none canceled' w h =
      fresh-IsClean (record w { relay_open = false }) (h, refl)
  connect_through-IsClean relay (some token) canceled' w h =
      let s = new_connection daemon net o token in
      finish-IsClean (setup daemon net o relay canceled' s w) (
        setup-Tracks daemon net o relay canceled' s w
          (record { opened = refl; covered = All-map (λ c k. k.0 s) w.sent h }))

  branch-IsClean :
      (b : Bool) (m n : Step Connection)
      → IsClean (released m)
      → IsClean (released n)
      → IsClean (released (if b then m else n))
  branch-IsClean true m n h k = h
  branch-IsClean false m n h k = k

  connect_by-IsClean :
      (dialed : Option ℕ) (token : Option Text) (canceled' : Bool) (w : World)
      → IsFresh w
      → IsClean (released (connect_by daemon net o dialed token canceled' w))
  connect_by-IsClean dialed token canceled' w (h, r) =
      branch-IsClean (text_eq o.transport tcp) _ _
        (branch-IsClean (is_nil dialed) _ _ (fresh-IsClean w (h, r))
          (connect_through-IsClean dialed token canceled' (record w { relay_open = true }) h))
        (connect_through-IsClean none token canceled' w h)

  check_unused-IsFresh :
      (c : Command) (key : Text) (w : World)
      → IsHarmless c
      → IsFresh w
      → IsFresh (check_unused daemon net o c key w).1
  unfolding check_unused
  check_unused-IsFresh c key w k (h, r) = ((k, h), r)

  and_then-IsFresh :
      (m : Step (Unit {0})) (k : World → Step (Unit {0}))
      → IsFresh m.1
      → ((w : World) → IsFresh w → IsFresh (k w).1)
      → IsFresh (and_then daemon net o m k).1
  and_then-IsFresh (ok a, w) k h f = f w h
  and_then-IsFresh (err e, w) k h f = h

  preflight-IsFresh : (w : World) → IsFresh w → IsFresh (preflight daemon net o w).1
  unfolding preflight
  preflight-IsFresh w (h, r) =
      and_then-IsFresh (inspect daemon net o w) (check_all_unused daemon net o)
        (((λ s. tt, tt), h), r)
        (λ w1 h1.
          and_then-IsFresh (check_unused daemon net o get_conns (codes "conns") w1)
            (check_unused daemon net o get_shared (codes "keys"))
            (check_unused-IsFresh get_conns (codes "conns") w1 (λ s. tt, tt) h1)
            (λ w2 h2. check_unused-IsFresh get_shared (codes "keys") w2 (λ s. tt, tt) h2))

  and_then-IsClean :
      (m : Step (Unit {0})) (k : World → Step Connection)
      → IsFresh m.1
      → ((w : World) → IsFresh w → IsClean (released (k w)))
      → IsClean (released (and_then daemon net o m k))
  and_then-IsClean (ok a, w) k h f = f w h
  and_then-IsClean (err e, w) k h f = fresh-IsClean w h

  -- Whatever the daemon answers to any command, and whether the relay is dialled, the random source
  -- gives a token and the context is canceled or not: after a `Connect` that failed, and after one
  -- that succeeded and the `Close` of its connection, every credential, connection and child SA that
  -- the daemon was asked to set up has been asked for again, later, to be removed, nothing has been
  -- set up since, and the relay is closed.
  pub connect-IsClean :
      (dialed : Option ℕ) (token : Option Text) (canceled' : Bool)
      → IsClean (
          released (
            connect daemon net o dialed token canceled' (record { sent = []; relay_open = false })))
  unfolding connect
  connect-IsClean dialed token canceled' =
      and_then-IsClean (preflight daemon net o (record { sent = []; relay_open = false }))
        (connect_by daemon net o dialed token canceled')
        (preflight-IsFresh (record { sent = []; relay_open = false }) (tt, refl))
        (λ w h. connect_by-IsClean dialed token canceled' w h)
