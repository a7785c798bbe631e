-- ===== src/Tun/Routes.antt =====
-- internal/tun/routes_linux.go and routes_darwin.go: installing and removing split-tunnel routes.
pub mod Outcomes
use fortivpn_go.Prelude.{
  Bool, false, not, ◌&&◌, ◌||◌, List, [], ◌∷◌, ◌++◌, reverse, if◌then◌else◌, any, Result, err, ok,
  reject, ◌>>=◌, ◌>>◌, Text, codes, is_empty, text_eq,
}
use fortivpn_go.Netip.{is4, is6, prefix_is_valid, AddrText}
use fortivpn_go.Network.{Route, bool_eq}
use fortivpn_go.Tun.{Argv, System}

-- The two files differ only in the command that they run.
pub data Platform : Type 0 where
  linux darwin : Platform

-- `linuxRouteSpec` and `routeSpec`
pub record RouteSpec : Type 0 where
  pub destination : Text
  pub ipv6 : Bool
  pub device : Text

pub data SpecError : Type 0 where
  no_device bad_destination bad_family : SpecError

pub data RouteError : Type 0 where
  bad_route : SpecError → RouteError
  add_failed remove_failed : RouteError

abbrev pub spec_eq : RouteSpec → RouteSpec → Bool
spec_eq r s =
    text_eq r.destination s.destination && bool_eq r.ipv6 s.ipv6 && text_eq r.device s.device

unfoldable pub contains_route : List RouteSpec → RouteSpec → Bool
contains_route routes want = any (λ r. spec_eq r want) routes

-- The arguments of `ip`, and of `/sbin/route`.
unfoldable pub route_args : Platform → Text → RouteSpec → Argv
route_args linux action r =
    (if r.ipv6 then codes "-6" else codes "-4")
    ∷ codes "route"
    ∷ action
    ∷ r.destination
    ∷ codes "dev"
    ∷ r.device
    ∷ []
route_args darwin action r =
    codes "-n"
    ∷ action
    ∷ ((if r.ipv6 then codes "-inet6" ∷ [] else [])
        ++ (codes "-net" ∷ r.destination ∷ codes "-interface" ∷ r.device ∷ []))

module _ (platform : Platform) (system : System) (net : AddrText) where
  unfoldable pub new_route_spec : Text → Route → Result SpecError RouteSpec
  new_route_spec device route = do
    reject (is_empty device) no_device
    reject (not (prefix_is_valid route.destination)) bad_destination
    reject (not (is4 route.destination.addr) && not (is6 route.destination.addr)) bad_family
    ok (record {
      destination = net.prefix_string route.destination;
      ipv6 = is6 route.destination.addr;
      device = device;
    })

  abbrev pub add_args : RouteSpec → Argv
  add_args = route_args platform (codes "add")

  abbrev pub delete_args : RouteSpec → Argv
  delete_args = route_args platform (codes "delete")

  -- Every route is tried, whatever the others' outcomes; the result is whether one failed.
  unfoldable pub remove_each : List RouteSpec → List Argv → Bool × List Argv
  remove_each [] ran = (false, ran)
  remove_each (r ∷ rs) ran =
      let (f, ran') = remove_each rs (ran ++ (delete_args r ∷ [])) in
      (not (system ran (delete_args r)) || f, ran')

  -- `removeRoutes`, from the last route to the first
  unfoldable pub remove_routes :
      List RouteSpec → List Argv → Result RouteError (Unit {0}) × List Argv
  unfolding remove_each
  remove_routes routes ran =
      let (f, ran') = remove_each (reverse routes) ran in (reject f remove_failed, ran')

  -- The routes that were installed, for the cleanup function that is returned, and what ran.
  abbrev pub Configured : Type 0
  Configured = Result RouteError (List RouteSpec) × List Argv

  abbrev pub then_install : Configured → (List RouteSpec → List Argv → Configured) → Configured
  then_install (ok installed, ran) k = k installed ran
  then_install (err e, ran) k = (err e, ran)

  abbrev pub install_spec : List RouteSpec → List Argv → Result SpecError RouteSpec → Configured
  install_spec installed ran (err e) = (err (bad_route e), ran)
  install_spec installed ran (ok spec) =
      if contains_route installed spec
      then (ok installed, ran)
      else if system ran (add_args spec)
      then (ok (installed ++ (spec ∷ [])), ran ++ (add_args spec ∷ []))
      else (err add_failed, (remove_routes installed (ran ++ (add_args spec ∷ []))).1)

  -- The loop of `ConfigureRoutes`.
  unfoldable pub install_routes : Text → List RouteSpec → List Argv → List Route → Configured
  unfolding new_route_spec remove_routes
  install_routes device installed ran [] = (ok installed, ran)
  install_routes device installed ran (route ∷ rest) =
      then_install (install_spec installed ran (new_route_spec device route))
        (λ installed' ran'. install_routes device installed' ran' rest)

  unfoldable pub configure_routes : Text → List Route → List Route → Configured
  unfolding install_routes
  configure_routes device routes4 routes6 = install_routes device [] [] (routes4 ++ routes6)
