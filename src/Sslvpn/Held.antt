-- ===== src/Sslvpn/Held.antt =====
-- What a session of internal/sslvpn holds of the world: the contract of internal/session/session.go.
use fortivpn_go.Prelude.{
  ◌≡◌, refl, ◌∙◌, Bool, true, false, not, ◌&&◌, ◌||◌, Option, none, some, List, [], ◌∷◌, ◌++◌,
  arith,
}
use fortivpn_go.Sslvpn.{
  Effect, allocated, transport_opened, device_created, configured, routes_configured,
  routes_removed, report_cleanup, device_closed, transport_closed, RouteCleanupDevice, Connection,
}

-- The connection to the gateway, the interface, and routes through it that have a cleanup.
pub record Held : Type 0 where
  pub transport : Bool
  pub interface : Bool
  pub routes : Bool

abbrev pub nothing_held : Held
nothing_held = record { transport = false; interface = false; routes = false }

abbrev pub allowed : Bool → Held → Option Held
allowed true h = some h
allowed false h = none

-- What is held after an effect, none where the effect is out of order: nothing is opened twice or
-- closed twice, the interface is there while it is configured, and while it has routes. A release
-- counts as done when it was called, whether or not it succeeds.
abbrev pub after_effect : Held → Effect → Option Held
after_effect h (allocated b) = allowed (not h.transport && not h.interface) h
after_effect h (transport_opened dns b) = allowed (not h.transport) (record h { transport = b })
after_effect h (device_created b) = allowed (not h.interface) (record h { interface = b })
after_effect h (configured settings b) = allowed (h.interface && not h.routes) h
after_effect h (routes_configured name routes4 routes6 left given succeeds) =
    allowed (h.interface && not h.routes) (record h { routes = given })
after_effect h (routes_removed b) = allowed (h.interface && h.routes) (record h { routes = false })
after_effect h report_cleanup = some h
after_effect h (device_closed b) =
    allowed (h.interface && not h.routes) (record h { interface = false })
after_effect h (transport_closed b) = allowed h.transport (record h { transport = false })

abbrev pub replay : Option Held → List Effect → Option Held
replay none es = none
replay (some h) [] = some h
replay (some h) (e ∷ es) = replay (after_effect h e) es

pub replay-append :
    (o : Option Held) (es fs : List Effect) → replay o (es ++ fs) ≡ replay (replay o es) fs
replay-append none es fs = refl
replay-append (some h) [] fs = refl
replay-append (some h) (e ∷ es) fs = replay-append (after_effect h e) es fs

abbrev pub all_held : List Effect → Option Held
all_held ran = replay (some nothing_held) ran

-- More effects, after those that lead to `h`.
pub all_held-more :
    (ran es : List Effect) (h : Held)
    → all_held ran ≡ some h
    → all_held (ran ++ es) ≡ replay (some h) es
all_held-more ran es h k = replay-append (some nothing_held) ran es ∙ rw k refl

-- Routes that were left installed without a cleanup.
abbrev pub is_stray : Effect → Bool
is_stray (routes_configured name routes4 routes6 left given succeeds) = left && not given
is_stray (allocated b) = false
is_stray (transport_opened dns b) = false
is_stray (device_created b) = false
is_stray (configured settings b) = false
is_stray (routes_removed b) = false
is_stray report_cleanup = false
is_stray (device_closed b) = false
is_stray (transport_closed b) = false

-- Whether any of the effects left such routes, which nothing removes.
abbrev pub has_stray : List Effect → Bool
has_stray [] = false
has_stray (e ∷ es) = is_stray e || has_stray es

pub has_stray-append : (es fs : List Effect) → has_stray (es ++ fs) ≡ (has_stray es || has_stray fs)
has_stray-append [] fs = refl
has_stray-append (e ∷ es) fs = ground (arith, has_stray-append es fs)

abbrev pub interface_of : Option RouteCleanupDevice → Bool
interface_of none = false
interface_of (some d) = not d.once

abbrev pub routes_of : Option RouteCleanupDevice → Bool
routes_of none = false
routes_of (some d) = not d.once && d.has_cleanup

-- What a session has yet to release.
abbrev pub held_by : Connection → Held
held_by s = record {
  transport = not s.once;
  interface = interface_of s.device;
  routes = routes_of s.device;
}

-- The effects so far were in order and leave exactly what the session has yet to release; a session
-- that was closed has nothing left.
pub record Owns (s : Connection) (ran : List Effect) : Type 0 where
  pub held : all_held ran ≡ some (held_by s)
  pub over : s.once ≡ true → held_by s ≡ nothing_held
