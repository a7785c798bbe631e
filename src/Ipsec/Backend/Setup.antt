-- ===== src/Ipsec/Backend/Setup.antt =====
-- The setup in `Connect` of internal/ipsec/backend.go records each command before its outcome.
use fortivpn_go.Prelude.{
  ℕ, ◌≡◌, refl, sym, ◌∙◌, Bool, true, false, not, ◌||◌, Option, some, List, [], ◌∷◌, ◌++◌, arith,
  if◌then◌else◌, All, any, any-append, Result, ok, err, Text, codes, text_eq_refl, text_eq,
}
use fortivpn_go.Netip.{AddrText}
use fortivpn_go.Network.{is_nil}
use fortivpn_go.Ipsec.Options.{Options}
use fortivpn_go.Ipsec.Negotiated.{info}
use fortivpn_go.Ipsec.Negotiated.{InfoError, Info, child_name, child_selectors}
use fortivpn_go.Ipsec.Backend.{
  Command, stats, get_conns, get_shared, load_shared, load_conn, initiate, list_sas, terminate,
  unload_conn, unload_shared, Daemon, command_failed, Connection, World, send, Setup, then_setup,
  outcome, load_secret, load_connection, initiate_all, from_info, read_state, negotiate, propose,
  load_eap, setup,
}
use fortivpn_go.Ipsec.Backend.Close.{IsTracked}

-- An open connection whose record covers all that was sent.
pub record Tracks (s : Connection) (w : World) : Type 0 where
  pub opened : s.closed ≡ false
  pub covered : All (IsTracked s) w.sent

abbrev pub IsIn : Text → List Text → Type 0
IsIn id ks = any (λ x. text_eq x id) ks ≡ true

-- What a connection recorded stays recorded as it records more.
IsTracked-mono :
    (s s' : Connection)
    → s'.name ≡ s.name
    → ((id : Text) → IsIn id s.keys → IsIn id s'.keys)
    → (s.loaded ≡ true → s'.loaded ≡ true)
    → (s.initiated ≡ true → s'.initiated ≡ true)
    → (c : Command) → IsTracked s c
    → IsTracked s' c
IsTracked-mono s s' n k l i (load_shared id q r d) t = k id t
IsTracked-mono s s' n k l i (load_conn m c) t = (l t.0, t.1 ∙ sym n)
IsTracked-mono s s' n k l i (initiate m c) t = (i t.0, t.1 ∙ sym n)
IsTracked-mono s s' n k l i stats t = tt
IsTracked-mono s s' n k l i get_conns t = tt
IsTracked-mono s s' n k l i get_shared t = tt
IsTracked-mono s s' n k l i (list_sas m) t = tt
IsTracked-mono s s' n k l i (terminate m) t = tt
IsTracked-mono s s' n k l i (unload_conn m) t = tt
IsTracked-mono s s' n k l i (unload_shared m) t = tt

pub All-map :
    {A : Type 0} {P Q : A → Type 0} → ((a : A) → P a → Q a) → (xs : List A) → All P xs → All Q xs
All-map f [] h = tt
All-map f (x ∷ xs) h = (f x h.0, All-map f xs h.1)

IsIn-front : (id : Text) (ks ls : List Text) → IsIn id ks → IsIn id (ks ++ ls)
IsIn-front id ks ls h = rw (any-append (λ x. text_eq x id) ks ls, h) refl

last_true : (a b : Bool) → b ≡ true → (a || (b || false)) ≡ true
last_true a b h = ground (arith, h)

IsIn-last : (id : Text) (ks : List Text) → IsIn id (ks ++ (id ∷ []))
IsIn-last id ks =
    any-append (λ x. text_eq x id) ks (id ∷ [])
    ∙ last_true (any (λ x. text_eq x id) ks) (text_eq id id) (text_eq_refl id)

module _ (daemon : Daemon) (net : AddrText) (o : Options) where
  then_setup-Tracks :
      (m : Setup daemon net o) (k : Connection → World → Setup daemon net o)
      → Tracks m.1 m.2
      → ((s : Connection) (w : World) → Tracks s w → let r = k s w in Tracks r.1 r.2)
      → let r = then_setup daemon net o m k in Tracks r.1 r.2
  then_setup-Tracks (ok a, s, w) k t h = h s w t
  then_setup-Tracks (err e, s, w) k t h = t

  branch-Tracks :
      (b : Bool) (m n : Setup daemon net o)
      → Tracks m.1 m.2
      → Tracks n.1 n.2
      → let r = (if b then m else n) in Tracks r.1 r.2
  branch-Tracks true m n h k = h
  branch-Tracks false m n h k = k

  load_secret-Tracks :
      (suffix kind owner secret : Text) (s : Connection) (w : World)
      → Tracks s w
      → let r = load_secret daemon net o suffix kind owner secret s w in Tracks r.1 r.2
  load_secret-Tracks suffix kind owner secret s w t =
      let s' = record s { keys = s.keys ++ ((s.name ++ suffix) ∷ []) } in
      record {
        opened = t.opened;
        covered = (
          IsIn-last (s.name ++ suffix) s.keys,
          All-map
              (IsTracked-mono s s' refl (λ id h. IsIn-front id s.keys ((s.name ++ suffix) ∷ []) h)
                (λ h. h) (λ h. h))
              w.sent t.covered,
        );
      }

  load_connection-Tracks :
      (relay : Option ℕ) (s : Connection) (w : World)
      → Tracks s w
      → let r = load_connection daemon net o relay s w in Tracks r.1 r.2
  load_connection-Tracks relay s w t = record {
    opened = t.opened;
    covered = (
      (refl, refl),
      All-map (IsTracked-mono s (record s { loaded = true }) refl (λ id h. h) (λ h. refl) (λ h. h))
          w.sent t.covered,
    );
  }

  initiate_all-Tracks :
      (asked : List (ℕ × Bool)) (s : Connection) (w : World)
      → Tracks s w
      → let r = initiate_all daemon net o asked s w in Tracks r.1 r.2
  unfolding initiate_all
  initiate_all-Tracks [] s w t = t
  initiate_all-Tracks ((i, six) ∷ rest) s w t =
      let c = initiate s.name (child_name s.name i) in
      then_setup-Tracks
        (outcome daemon net o (daemon w.sent c), record s { initiated = true }, send w c)
        (λ s' w'. initiate_all daemon net o rest s' w')
        (record {
          opened = t.opened;
          covered = (
            (refl, refl),
            All-map
                (IsTracked-mono s (record s { initiated = true }) refl (λ id h. h) (λ h. h)
                  (λ h. refl))
                w.sent t.covered,
          );
        })
        (λ s' w' t'. initiate_all-Tracks rest s' w' t')

  from_info-Tracks :
      (canceled' : Bool) (s : Connection) (w : World) (r : Result InfoError Info)
      → Tracks s w
      → let m = from_info daemon net o canceled' s w r in Tracks m.1 m.2
  from_info-Tracks canceled' s w (err e) t = t
  from_info-Tracks canceled' s w (ok i) t = record {
    opened = t.opened;
    covered =
        All-map (IsTracked-mono s (record s { info = some i }) refl (λ id h. h) (λ h. h) (λ h. h))
          w.sent t.covered;
  }

  read_state-Tracks :
      (relay : Option ℕ) (canceled' : Bool) (s : Connection) (w : World)
      → Tracks s w
      → let m = read_state daemon net o relay canceled' s w in Tracks m.1 m.2
  read_state-Tracks relay canceled' s w t =
      let r = daemon w.sent (list_sas s.name) in
      let w' = send w (list_sas s.name) in
      let t' : Tracks s w' = record { opened = t.opened; covered = (tt, t.covered) } in
      branch-Tracks r.failed (err command_failed, s, w')
        (from_info daemon net o canceled' s w' (info net o (not (is_nil relay)) s.name r.messages))
        t' (from_info-Tracks canceled' s w' (info net o (not (is_nil relay)) s.name r.messages) t')

  negotiate-Tracks :
      (relay : Option ℕ) (canceled' : Bool) (s : Connection) (w : World)
      → Tracks s w
      → let m = negotiate daemon net o relay canceled' s w in Tracks m.1 m.2
  negotiate-Tracks relay canceled' s w t =
      then_setup-Tracks (initiate_all daemon net o (child_selectors o.ip_mode) s w)
        (read_state daemon net o relay canceled')
        (initiate_all-Tracks (child_selectors o.ip_mode) s w t) (read_state-Tracks relay canceled')

  propose-Tracks :
      (relay : Option ℕ) (canceled' : Bool) (s : Connection) (w : World)
      → Tracks s w
      → let m = propose daemon net o relay canceled' s w in Tracks m.1 m.2
  propose-Tracks relay canceled' s w t =
      then_setup-Tracks (load_connection daemon net o relay s w)
        (negotiate daemon net o relay canceled') (load_connection-Tracks relay s w t)
        (negotiate-Tracks relay canceled')

  load_eap-Tracks :
      (relay : Option ℕ) (canceled' : Bool) (s : Connection) (w : World)
      → Tracks s w
      → let m = load_eap daemon net o relay canceled' s w in Tracks m.1 m.2
  load_eap-Tracks relay canceled' s w t =
      then_setup-Tracks
        (load_secret daemon net o (codes "-eap") (codes "EAP") o.username o.password s w)
        (propose daemon net o relay canceled')
        (load_secret-Tracks (codes "-eap") (codes "EAP") o.username o.password s w t)
        (propose-Tracks relay canceled')

  pub setup-Tracks :
      (relay : Option ℕ) (canceled' : Bool) (s : Connection) (w : World)
      → Tracks s w
      → let m = setup daemon net o relay canceled' s w in Tracks m.1 m.2
  unfolding setup
  setup-Tracks relay canceled' s w t =
      then_setup-Tracks
        (load_secret daemon net o (codes "-ike") (codes "IKE") o.remote_id o.psk s w)
        (load_eap daemon net o relay canceled')
        (load_secret-Tracks (codes "-ike") (codes "IKE") o.remote_id o.psk s w t)
        (load_eap-Tracks relay canceled')
