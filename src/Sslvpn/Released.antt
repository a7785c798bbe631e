-- ===== src/Sslvpn/Released.antt =====
-- Setup and teardown of internal/sslvpn leave nothing behind, and undo in order.
use fortivpn_go.Prelude.{
  ◌≡◌, refl, ◌∙◌, ◌⊎◌, inl, inr, Bool, true, false, not, ◌&&◌, ◌||◌, Option, none, some, List, [],
  ◌∷◌, ◌++◌, Bool-cases, Result, err, ok,
}
use fortivpn_go.Network.{Config}
use fortivpn_go.Engine.{End, tunnel_end, device_end}
use fortivpn_go.Sslvpn.{
  SessionError, Device, Effect, device_closed, transport_closed, Backend, RouteCleanupDevice,
  Connection, reported, cleaned, close_managed, closing, close, failing, close_device_of, close_end,
  close_ends, run,
}
use fortivpn_go.Sslvpn.Held.{
  Held, nothing_held, replay, all_held, all_held-more, has_stray, has_stray-append, interface_of,
  routes_of, Owns,
}

abbrev pub holding : Bool → Bool → Bool → Held
holding t i r = record { transport = t; interface = i; routes = r }

module _ (w : Backend) where
  replay-reported :
      (h : Held) (es : List Effect) → replay (some h) (reported w ++ es) ≡ replay (some h) es
  replay-reported h es = elim (Bool-cases (not w.removes_routes && w.reports_cleanup)) [
    | inl k ↦ rw k refl
    | inr k ↦ rw k refl
  ]

  -- Routes go before the interface.
  replay-cleaned :
      (t c : Bool)
      → replay (some (holding t true c)) (cleaned w c ++ (device_closed w.closes_device ∷ []))
        ≡ some (holding t false false)
  replay-cleaned t true =
      replay-reported (holding t true false) (device_closed w.closes_device ∷ [])
  replay-cleaned t false = refl

  close_managed-held :
      (d : RouteCleanupDevice) (ran : List Effect) (t : Bool)
      → all_held ran ≡ some (holding t (interface_of (some d)) (routes_of (some d)))
      → ((close_managed w d ran).0.once ≡ true)
        × (all_held (close_managed w d ran).1 ≡ some (holding t false false))
  unfolding close_managed
  close_managed-held d ran t h = elim (Bool-cases d.once) [
    | inl k ↦ simp k (refl, h ∙ simp k refl)
    | inr k ↦ rw k (
      refl,
      all_held-more ran _ (holding t true d.has_cleanup) (h ∙ rw k refl)
          ∙ replay-cleaned t d.has_cleanup,
    )
  ]

  over_device :
      (d : RouteCleanupDevice)
      → d.once ≡ true
      → holding false (interface_of (some d)) (routes_of (some d)) ≡ nothing_held
  over_device d k = rw k refl

  closing-Owns :
      (s : Connection) (d : Option RouteCleanupDevice) (ran : List Effect)
      → s.device ≡ d
      → all_held ran ≡ some (holding false (interface_of d) (routes_of d))
      → Owns (closing w s d ran).0 (closing w s d ran).1 × ((closing w s d ran).0.once ≡ true)
  closing-Owns s none ran e h = (record { held = h ∙ rw e refl; over = λ k. rw e refl }, refl)
  closing-Owns s (some d) ran e h =
      let (o, k) = close_managed-held d ran false h in
      let m = over_device (close_managed w d ran).0 o in
      (record { held = k ∙ rw m refl; over = λ n. m }, refl)

  -- After `Close` nothing is held.
  close-Owns :
      (s : Connection) (ran : List Effect)
      → Owns s ran
      → Owns (close w s ran).0 (close w s ran).1 × ((close w s ran).0.once ≡ true)
  unfolding close
  close-Owns s ran o = elim (Bool-cases s.once) [
    | inl k ↦ simp k (o, refl)
    | inr k ↦ rw k (
        closing-Owns s s.device (ran ++ (transport_closed w.closes_transport ∷ [])) refl (
          all_held-more ran _ (holding true (interface_of s.device) (routes_of s.device))
            (o.held ∙ rw k refl)))
  ]

  close_device_of-Owns :
      (s : Connection) (d : Option RouteCleanupDevice) (ran : List Effect)
      → s.device ≡ d
      → Owns s ran
      → Owns (close_device_of w s d ran).0 (close_device_of w s d ran).1
  close_device_of-Owns s none ran e o = o
  close_device_of-Owns s (some d) ran e o =
      let (k, h) = close_managed-held d ran (not s.once) (o.held ∙ rw e refl) in
      record { held = h ∙ rw k refl; over = λ m. rw (m, k) refl }

  close_end-Owns :
      (e : End) (s : Connection) (ran : List Effect)
      → Owns s ran
      → Owns (close_end w e s ran).0 (close_end w e s ran).1
  unfolding close_end
  close_end-Owns tunnel_end s ran o = (close-Owns s ran o).0
  close_end-Owns device_end s ran o = close_device_of-Owns s s.device ran refl o

  close_ends-Owns :
      (es : List End) (s : Connection) (ran : List Effect)
      → Owns s ran
      → Owns (close_ends w es s ran).0 (close_ends w es s ran).1
  unfolding close_ends
  close_ends-Owns [] s ran o = o
  close_ends-Owns (e ∷ es) s ran o =
      close_ends-Owns es (close_end w e s ran).0 (close_end w e s ran).1 (close_end-Owns e s ran o)

  -- Nothing is held, and to close again does nothing.
  abbrev pub IsReleased : Connection × List Effect → Type 0
  IsReleased (s, ran) = (all_held ran ≡ some nothing_held) × (close w s ran ≡ (s, ran))

  close_again : (s : Connection) (ran : List Effect) → s.once ≡ true → close w s ran ≡ (s, ran)
  unfolding close
  close_again s ran k = rw k refl

  pub close-IsReleased :
      (s : Connection) (ran : List Effect) → Owns s ran → IsReleased (close w s ran)
  close-IsReleased s ran o =
      let (p, k) = close-Owns s ran o in (p.held ∙ rw (p.over k) refl, close_again _ _ k)

  pub run-IsReleased :
      (ends : List End) (s : Connection) (ran : List Effect)
      → Owns s ran
      → IsReleased (run w ends s ran)
  unfolding run
  run-IsReleased ends s ran o = close-IsReleased _ _ (close_ends-Owns ends s ran o)

  has_stray-cleaned :
      (c : Bool) → has_stray (cleaned w c ++ (device_closed w.closes_device ∷ [])) ≡ false
  has_stray-cleaned false = refl
  has_stray-cleaned true = elim (Bool-cases (not w.removes_routes && w.reports_cleanup)) [
    | inl k ↦ rw k refl
    | inr k ↦ rw k refl
  ]

  -- Effects behind others that leave no routes.
  has_stray-more :
      (ran es : List Effect) → has_stray es ≡ false → has_stray (ran ++ es) ≡ has_stray ran
  has_stray-more ran es h = has_stray-append ran es ∙ rw h (or_false (has_stray ran))
    where
      or_false : (b : Bool) → (b || false) ≡ b
      or_false true = refl
      or_false false = refl

  has_stray-close_managed :
      (d : RouteCleanupDevice) (ran : List Effect)
      → has_stray (close_managed w d ran).1 ≡ has_stray ran
  unfolding close_managed
  has_stray-close_managed d ran = elim (Bool-cases d.once) [
    | inl k ↦ simp k refl
    | inr k ↦ rw k (has_stray-more ran _ (has_stray-cleaned d.has_cleanup))
  ]

  has_stray-closing :
      (s : Connection) (d : Option RouteCleanupDevice) (ran : List Effect)
      → has_stray (closing w s d ran).1 ≡ has_stray ran
  has_stray-closing s none ran = refl
  has_stray-closing s (some d) ran = has_stray-close_managed d ran

  has_stray-close :
      (s : Connection) (ran : List Effect) → has_stray (close w s ran).1 ≡ has_stray ran
  unfolding close
  has_stray-close s ran = elim (Bool-cases s.once) [
    | inl k ↦ simp k refl
    | inr k ↦ rw k (
        has_stray-closing s s.device (ran ++ (transport_closed w.closes_transport ∷ []))
        ∙ has_stray-more ran (transport_closed w.closes_transport ∷ []) refl)
  ]

  -- `ConfigureRoutes` leaves routes of the allocation installed and gives no cleanup for them.
  abbrev pub LeavesStray : Type 0
  LeavesStray =
      (c : Config) × (device : Device) × (w.allocation ≡ some c)
      × (w.device ≡ some device)
      × (w.routes_left device.name c.routes4 c.routes6 ≡ true)
      × (w.routes_cleanup device.name c.routes4 c.routes6 ≡ false)

  -- No routes are left without a cleanup, unless `ConfigureRoutes` does that.
  abbrev pub HasNoStray : List Effect → Type 0
  HasNoStray ran = (has_stray ran ≡ false) ⊎ LeavesStray

  -- What a setup comes to: on an error nothing is held or left, unless `ConfigureRoutes` left it, and
  -- otherwise what the session owns is.
  abbrev pub Outcome :
      (Connection → List Effect → Type 0) → Result SessionError Connection × List Effect → Type 0
  Outcome P (err e, ran) = (all_held ran ≡ some nothing_held) × HasNoStray ran
  Outcome P (ok s, ran) = Owns s ran × (s.once ≡ false) × P s ran

  pub failing-Outcome :
      (P : Connection → List Effect → Type 0) (s : Connection) (ran : List Effect)
      (e : SessionError)
      → Owns s ran
      → HasNoStray ran
      → Outcome P (failing w s ran e)
  failing-Outcome P s ran e o (inl n) =
      ((close-IsReleased s ran o).0, inl (has_stray-close s ran ∙ n))
  failing-Outcome P s ran e o (inr l) = ((close-IsReleased s ran o).0, inr l)
