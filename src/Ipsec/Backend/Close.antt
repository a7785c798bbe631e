-- ===== src/Ipsec/Backend/Close.antt =====
-- `Close` of internal/ipsec/backend.go: what it sends undoes what the connection recorded.
use mathlib.Core.List.{reverse-cons, append_assoc}
use fortivpn_go.Prelude.{
  ◌≡◌, refl, sym, ap, ◌∙◌, Bool, true, false, ◌||◌, List, [], ◌∷◌, ◌++◌, reverse, arith,
  if◌then◌else◌, All, any, All-append, any-append, Text, text_eq_refl, text_eq,
}
use fortivpn_go.Netip.{AddrText}
use fortivpn_go.Ipsec.Options.{Options}
use fortivpn_go.Ipsec.Backend.{
  Command, stats, get_conns, get_shared, load_shared, load_conn, initiate, list_sas, terminate,
  unload_conn, unload_shared, Daemon, Connection, World, send, unload_all, after_unload, close,
}

abbrev pub is_unload_shared : Text → Command → Bool
is_unload_shared id (unload_shared k) = text_eq k id
is_unload_shared id _ = false

abbrev pub is_unload_conn : Text → Command → Bool
is_unload_conn name (unload_conn n) = text_eq n name
is_unload_conn name _ = false

abbrev pub is_terminate : Text → Command → Bool
is_terminate name (terminate n) = text_eq n name
is_terminate name _ = false

-- The commands that only remove.
abbrev pub is_cleanup : Command → Bool
is_cleanup (terminate n) = true
is_cleanup (unload_conn n) = true
is_cleanup (unload_shared n) = true
is_cleanup _ = false

abbrev pub IsCleanup : Command → Type 0
IsCleanup c = is_cleanup c ≡ true

-- The connection's record of a command that has to be undone.
abbrev pub IsTracked : Connection → Command → Type 0
IsTracked s (load_shared id k o d) = any (λ x. text_eq x id) s.keys ≡ true
IsTracked s (load_conn n c) = (s.loaded ≡ true) × (n ≡ s.name)
IsTracked s (initiate i c) = (s.initiated ≡ true) × (i ≡ s.name)
IsTracked s _ = Unit {0}

-- A later command undoes it.
abbrev pub IsUndone : List Command → Command → Type 0
IsUndone later (load_shared id k o d) = any (is_unload_shared id) later ≡ true
IsUndone later (load_conn n c) = any (is_unload_conn n) later ≡ true
IsUndone later (initiate i c) = any (is_terminate i) later ≡ true
IsUndone later _ = Unit {0}

any-reverse : {A : Type 0} (p : A → Bool) (xs : List A) → any p (reverse xs) ≡ any p xs
any-reverse p [] = refl
any-reverse p (x ∷ xs) =
    ap (λ l. any p l) (reverse-cons x xs)
    ∙ any-append p (reverse xs) (x ∷ [])
    ∙ ground (arith, any-reverse p xs)

or_swap : (a b c : Bool) → a ≡ c → (a || (b || false)) ≡ (b || c)
or_swap a b c h = ground (arith, h)

module _ (daemon : Daemon) (net : AddrText) (o : Options) where
  unload_all-later :
      (ks : List Text) (w : World)
      → (later : List Command) × All IsCleanup later
        × ((unload_all daemon net o ks w).1.sent ≡ later ++ w.sent)
        × ((id : Text) → any (is_unload_shared id) later ≡ any (λ x. text_eq x id) ks)
  unfolding unload_all
  unload_all-later [] w = ([], tt, refl, λ id. refl)
  unload_all-later (k ∷ ks) w =
      let (later, q, e, f) = unload_all-later ks (send w (unload_shared k)) in
      (
        later ++ (unload_shared k ∷ []),
        All-append IsCleanup later (unload_shared k ∷ []) q (refl, tt),
        e ∙ sym (append_assoc later (unload_shared k ∷ []) w.sent),
        λ id.
            any-append (is_unload_shared id) later (unload_shared k ∷ [])
            ∙ or_swap (any (is_unload_shared id) later) (text_eq k id) (any (λ x. text_eq x id) ks)
                (f id),
      )

  -- What `Close` sends for the flags, the latest first.
  abbrev flagged : Connection → List Command
  flagged s =
      (if s.loaded then unload_conn s.name ∷ [] else [])
      ++ (if s.initiated then terminate s.name ∷ [] else [])

  flagged-sent :
      (s : Connection) (w : World) → (after_unload daemon net o s w).sent ≡ flagged s ++ w.sent
  flagged-sent s w = ground arith

  flagged-IsCleanup : (s : Connection) → All IsCleanup (flagged s)
  flagged-IsCleanup s = ground arith

  unload_conn-flagged :
      (s : Connection) → s.loaded ≡ true → any (is_unload_conn s.name) (flagged s) ≡ true
  unload_conn-flagged s h = rw (h, text_eq_refl s.name) refl

  terminate-flagged :
      (s : Connection) → s.initiated ≡ true → any (is_terminate s.name) (flagged s) ≡ true
  terminate-flagged s h = ground (arith, h, text_eq_refl s.name)

  or_right : (a b : Bool) → b ≡ true → (a || b) ≡ true
  or_right a b h = ground (arith, h)

  or_left : (a b : Bool) → a ≡ true → (a || b) ≡ true
  or_left a b h = ground (arith, h)

  undone :
      (s : Connection) (later : List Command)
      → ((id : Text) → any (is_unload_shared id) later ≡ any (λ x. text_eq x id) (reverse s.keys))
      → (c : Command) → IsTracked s c
      → IsUndone (later ++ flagged s) c
  undone s later f (load_shared id k o d) t =
      any-append (is_unload_shared id) later (flagged s)
      ∙ or_left (any (is_unload_shared id) later) (any (is_unload_shared id) (flagged s))
          (f id ∙ any-reverse (λ x. text_eq x id) s.keys ∙ t)
  undone s later f (load_conn n c) (l, e) = rw e (
      any-append (is_unload_conn s.name) later (flagged s)
      ∙ or_right (any (is_unload_conn s.name) later) (any (is_unload_conn s.name) (flagged s))
          (unload_conn-flagged s l))
  undone s later f (initiate i c) (l, e) = rw e (
      any-append (is_terminate s.name) later (flagged s)
      ∙ or_right (any (is_terminate s.name) later) (any (is_terminate s.name) (flagged s))
          (terminate-flagged s l))
  undone s later f stats t = tt
  undone s later f get_conns t = tt
  undone s later f get_shared t = tt
  undone s later f (list_sas n) t = tt
  undone s later f (terminate n) t = tt
  undone s later f (unload_conn n) t = tt
  undone s later f (unload_shared n) t = tt

  -- Everything that an open connection recorded is undone by what `Close` sends.
  pub close-IsUndone :
      (s : Connection) (w : World)
      → s.closed ≡ false
      → (later : List Command) × All IsCleanup later
        × ((close daemon net o s w).1.sent ≡ later ++ w.sent)
        × ((close daemon net o s w).1.relay_open ≡ false)
        × ((c : Command) → IsTracked s c → IsUndone later c)
  unfolding close
  close-IsUndone s w h =
      let (later, q, e, f) = unload_all-later (reverse s.keys) (after_unload daemon net o s w) in
      (
        later ++ flagged s,
        All-append IsCleanup later (flagged s) q (flagged-IsCleanup s),
        rw h (
            e
            ∙ ap (λ l. later ++ l) (flagged-sent s w)
            ∙ sym (append_assoc later (flagged s) w.sent)),
        rw h refl,
        undone s later f,
      )
