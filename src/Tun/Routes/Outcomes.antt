-- ===== src/Tun/Routes/Outcomes.antt =====
-- What `ConfigureRoutes` of internal/tun leaves installed, on each of its returns.
use mathlib.Core.List.{append_assoc, append-nil, map-append}
use fortivpn_go.Prelude.{
  ◌≡◌, refl, sym, ◌∙◌, Bool, true, false, List, [], ◌∷◌, ◌++◌, map, reverse, if◌then◌else◌, Result,
  err, ok, Text,
}
use fortivpn_go.Netip.{AddrText}
use fortivpn_go.Network.{Route}
use fortivpn_go.Tun.{Argv, System}
use fortivpn_go.Tun.Routes.{
  Platform, RouteSpec, SpecError, bad_route, add_failed, remove_failed, contains_route,
  new_route_spec, add_args, delete_args, remove_each, remove_routes, Configured, then_install,
  install_spec, install_routes, configure_routes,
}

module _ (platform : Platform) (system : System) (net : AddrText) where
  abbrev adds : List RouteSpec → List Argv
  adds = map (add_args platform system net)

  abbrev deletes : List RouteSpec → List Argv
  deletes = map (delete_args platform system net)

  remove_each-deletes :
      (rs : List RouteSpec) (ran : List Argv)
      → (remove_each platform system net rs ran).1 ≡ ran ++ deletes rs
  unfolding remove_each
  remove_each-deletes [] ran = sym (append-nil ran)
  remove_each-deletes (r ∷ rs) ran =
      remove_each-deletes rs (ran ++ (delete_args platform system net r ∷ []))
      ∙ append_assoc ran (delete_args platform system net r ∷ []) (deletes rs)

  -- What ran, for each result: after a success only the additions of what is returned; after a
  -- failed addition also that one, and the deletions of all before it, from the last to the first;
  -- after a route that cannot be used only additions.
  abbrev pub HasRun : Configured platform system net → Type 0
  HasRun (ok installed, ran) = ran ≡ adds installed
  HasRun (err add_failed, ran) =
      (installed : List RouteSpec) × (spec : RouteSpec) × (ran
        ≡ adds installed
          ++ ((add_args platform system net spec ∷ []) ++ deletes (reverse installed)))
  HasRun (err (bad_route e), ran) = (installed : List RouteSpec) × (ran ≡ adds installed)
  HasRun (err remove_failed, ran) = ⊥

  remove_routes-deletes :
      (rs : List RouteSpec) (ran : List Argv)
      → (remove_routes platform system net rs ran).1 ≡ ran ++ deletes (reverse rs)
  unfolding remove_routes
  remove_routes-deletes rs ran = remove_each-deletes (reverse rs) ran

  branch-HasRun :
      (b : Bool) (m n : Configured platform system net)
      → HasRun m
      → HasRun n
      → HasRun (if b then m else n)
  branch-HasRun true m n h k = h
  branch-HasRun false m n h k = k

  install_spec-HasRun :
      (installed : List RouteSpec) (ran : List Argv) (r : Result SpecError RouteSpec)
      → ran ≡ adds installed
      → HasRun (install_spec platform system net installed ran r)
  install_spec-HasRun installed ran (err e) h = (installed, h)
  install_spec-HasRun installed ran (ok spec) h =
      let added = ran ++ (add_args platform system net spec ∷ []) in
      branch-HasRun (contains_route installed spec) (ok installed, ran) _ h
        (branch-HasRun (system ran (add_args platform system net spec))
          (ok (installed ++ (spec ∷ [])), added)
          (err add_failed, (remove_routes platform system net installed added).1)
          (rw h (sym (map-append (add_args platform system net) installed (spec ∷ []))))
          (
            installed,
            spec,
            remove_routes-deletes installed added
                ∙ rw h (
                    append_assoc (adds installed) (add_args platform system net spec ∷ [])
                      (deletes (reverse installed))),
          ))

  then_install-HasRun :
      (m : Configured platform system net)
      (k : List RouteSpec → List Argv → Configured platform system net)
      → HasRun m
      → ((installed : List RouteSpec) (ran : List Argv)
          → ran ≡ adds installed
          → HasRun (k installed ran))
      → HasRun (then_install platform system net m k)
  then_install-HasRun (ok installed, ran) k h f = f installed ran h
  then_install-HasRun (err add_failed, ran) k h f = h
  then_install-HasRun (err remove_failed, ran) k h f = h
  then_install-HasRun (err (bad_route e), ran) k h f = h

  install_routes-HasRun :
      (device : Text) (installed : List RouteSpec) (ran : List Argv) (routes : List Route)
      → ran ≡ adds installed
      → HasRun (install_routes platform system net device installed ran routes)
  unfolding install_routes
  install_routes-HasRun device installed ran [] h = h
  install_routes-HasRun device installed ran (route ∷ rest) h =
      let r = new_route_spec platform system net device route in
      then_install-HasRun (install_spec platform system net installed ran r)
        (λ installed' ran'. install_routes platform system net device installed' ran' rest)
        (install_spec-HasRun installed ran r h)
        (λ installed' ran' h'. install_routes-HasRun device installed' ran' rest h')

  -- What ran after the cleanup function that a success returns.
  abbrev pub IsCleaned : Configured platform system net → Type 0
  IsCleaned (ok installed, ran) =
      (remove_routes platform system net installed ran).1
      ≡ adds installed ++ deletes (reverse installed)
  IsCleaned (err e, ran) = Unit {0}

  HasRun-IsCleaned : (m : Configured platform system net) → HasRun m → IsCleaned m
  HasRun-IsCleaned (ok installed, ran) h = rw h (remove_routes-deletes installed (adds installed))
  HasRun-IsCleaned (err e, ran) h = tt

  -- Whichever commands fail: when `ConfigureRoutes` succeeds, it ran exactly the additions of the
  -- routes that it returns, in order, and the cleanup then deletes exactly these, the last first;
  -- when an addition fails, the additions before it are deleted, the last first; and when a route
  -- cannot be used, nothing but additions ran.
  pub configure_routes-HasRun :
      (device : Text) (routes4 routes6 : List Route)
      → let m = configure_routes platform system net device routes4 routes6 in
        HasRun m × IsCleaned m
  unfolding configure_routes
  configure_routes-HasRun device routes4 routes6 =
      let h = install_routes-HasRun device [] [] (routes4 ++ routes6) refl in
      (h, HasRun-IsCleaned (configure_routes platform system net device routes4 routes6) h)
