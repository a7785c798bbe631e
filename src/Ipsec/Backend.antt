-- ===== src/Ipsec/Backend.antt =====
-- internal/ipsec/backend.go: the commands that a backend sends to the daemon.
mod Close
mod Setup
pub mod Cleanup
mod Examples
use fortivpn_go.Prelude.{
  ℕ, Bool, true, false, not, ◌&&◌, ◌||◌, Option, none, some, List, [], ◌∷◌, ◌++◌, map, reverse,
  if◌then◌else◌, any, Result, ok, err, ◌>>=◌, ◌>>◌, reject, Text, codes, text_eq,
}
use fortivpn_go.Netip.{AddrText}
use fortivpn_go.Network.{is_nil, no_items}
use fortivpn_go.Ipsec.Options.{Options, tcp}
use fortivpn_go.Ipsec.Vici.{Message, text, list}
use fortivpn_go.Ipsec.Negotiated.{
  info, InfoError, Info, loopback, loopback_text, is_dual, child_name, child_selectors,
}

-- The part of `config` that depends on the options; the rest is constant.
pub record ConnConfig : Type 0 where
  pub remote_addrs : Text
  pub local_addrs : Option Text
  pub ports : Option (ℕ × ℕ)
  pub vips : List Text
  pub local_id : Text
  pub remote_id : Text
  pub children : List (Text × Text)

-- The commands of `control.call`, and `list`, which asks for the SAs of a name.
pub data Command : Type 0 where
  stats get_conns get_shared : Command
  load_shared : (id kind owner data' : Text) → Command
  load_conn : (name : Text) (c : ConnConfig) → Command
  initiate : (ike child : Text) → Command
  list_sas : (name : Text) → Command
  terminate unload_conn unload_shared : (name : Text) → Command

-- What comes back: the message of `call` or the messages of `list`, and whether there is an error.
pub record Reply : Type 0 where
  pub message : Option Message
  pub messages : List Message
  pub failed : Bool

-- The daemon answers each command by what it was sent before, the latest command first.
abbrev pub Daemon : Type 0
Daemon = List Command → Command → Reply

pub data ConnectError : Type 0 where
  command_failed no_plugins bad_plugin no_userspace no_eap not_dedicated : ConnectError
  dial_failed no_random canceled : ConnectError
  bad_state : InfoError → ConnectError

-- `connection`, less its backend: `closed` for `once`, `close_failed` for `closeErr != nil`.
pub record Connection : Type 0 where
  pub name : Text
  pub keys : List Text
  pub loaded : Bool
  pub initiated : Bool
  pub info : Option Info
  pub closed : Bool
  pub close_failed : Bool

-- What a run of `Connect` and `Close` changes: the commands that were sent, the latest first, and
-- whether the relay is open.
pub record World : Type 0 where
  pub sent : List Command
  pub relay_open : Bool

abbrev pub send : World → Command → World
send w c = record w { sent = c ∷ w.sent }

-- The texts that a reply's message lists under a key; a nil message lists none.
abbrev pub listed : Option Message → Text → List Text
listed none key = []
listed (some m) key = list m key

abbrev pub loaded_plugin : Text → List Text → Bool
loaded_plugin p = any (λ q. text_eq q p)

abbrev pub is_forbidden : Text → Bool
is_forbidden p =
    text_eq p (codes "resolve") || text_eq p (codes "osx-attr") || text_eq p (codes "updown")

unfoldable pub check_plugins : Options → List Text → Result ConnectError (Unit {0})
check_plugins o plugins = do
  reject (no_items plugins) no_plugins
  reject (any is_forbidden plugins) bad_plugin
  reject
      (text_eq o.transport tcp
        && (not (loaded_plugin (codes "kernel-libipsec") plugins)
            || loaded_plugin (codes "kernel-pfkey") plugins))
      no_userspace
  reject
      (not (loaded_plugin (codes "eap-mschapv2") plugins)
        || not (loaded_plugin (codes "eap-identity") plugins))
      no_eap

abbrev pub Step : Type 0 → Type 0
Step A = Result ConnectError A × World

module _ (daemon : Daemon) (net : AddrText) (o : Options) where
  -- One round of the last loop of `preflight`.
  unfoldable pub check_unused : Command → Text → World → Step (Unit {0})
  check_unused c key w =
      let r = daemon w.sent c in
      (
        if r.failed
            then err command_failed
            else reject (not (no_items (listed r.message key))) not_dedicated,
        send w c,
      )

  abbrev pub and_then : {A : Type 0} → Step (Unit {0}) → (World → Step A) → Step A
  and_then (ok _, w) k = k w
  and_then (err e, w) k = (err e, w)

  abbrev pub inspect : World → Step (Unit {0})
  inspect w =
      let r = daemon w.sent stats in
      (
        if r.failed
            then err command_failed
            else check_plugins o (listed r.message (codes "plugins")),
        send w stats,
      )

  abbrev pub check_all_unused : World → Step (Unit {0})
  check_all_unused w =
      and_then (check_unused get_conns (codes "conns") w) (check_unused get_shared (codes "keys"))

  unfoldable pub preflight : World → Step (Unit {0})
  unfolding check_plugins check_unused
  preflight w = and_then (inspect w) check_all_unused

  abbrev pub host_texts : List Text
  host_texts = if is_dual o.ip_mode then codes "0.0.0.0" ∷ codes "::" ∷ [] else codes "0.0.0.0" ∷ []

  abbrev pub selector_text : Bool → Text
  selector_text six = if six then codes "::/0" else codes "0.0.0.0/0"

  -- `config`: through a relay, which listens on a loopback port, both ends are on the loopback.
  unfoldable pub config : Text → Option ℕ → ConnConfig
  config name relay = record {
    remote_addrs = if is_nil relay then net.addr_string o.gateway else loopback_text;
    local_addrs = if is_nil relay then none else some loopback_text;
    ports = elim relay [ none ↦ none | some port ↦ some (4500, port) ];
    vips = host_texts;
    local_id = o.username;
    remote_id = o.remote_id;
    children = map (λ (i, six). (child_name name i, selector_text six)) (child_selectors o.ip_mode);
  }

  -- `Close`, which removes what the connection recorded, in the opposite order, at most once.
  unfoldable pub unload_all : List Text → World → Bool × World
  unload_all [] w = (false, w)
  unload_all (k ∷ ks) w =
      let r = daemon w.sent (unload_shared k) in
      let (f, w') = unload_all ks (send w (unload_shared k)) in (r.failed || f, w')

  abbrev pub send_if : Bool → Command → World → World
  send_if b c w = if b then send w c else w

  abbrev pub is_zero_matches : Option Message → Bool
  is_zero_matches none = false
  is_zero_matches (some m) = text_eq (text m (codes "matches")) (codes "0")

  abbrev pub after_terminate : Connection → World → World
  after_terminate s = send_if s.initiated (terminate s.name)

  abbrev pub after_unload : Connection → World → World
  after_unload s w = send_if s.loaded (unload_conn s.name) (after_terminate s w)

  unfoldable pub close : Connection → World → Connection × World
  unfolding unload_all
  close s w =
      if s.closed
      then (s, w)
      else (let t = daemon w.sent (terminate s.name) in
          let u = daemon (after_terminate s w).sent (unload_conn s.name) in
          let (f, w') = unload_all (reverse s.keys) (after_unload s w) in
          (
            record s {
              closed = true;
              close_failed =
                  (s.initiated && t.failed && not (is_zero_matches t.message))
                  || (s.loaded && u.failed)
                  || f;
            },
            record w' { relay_open = false },
          ))

  -- A part of the setup: its result, the connection's record of it, and the world.
  abbrev pub Setup : Type 0
  Setup = Result ConnectError (Unit {0}) × Connection × World

  abbrev pub then_setup : Setup → (Connection → World → Setup) → Setup
  then_setup (ok _, s, w) k = k s w
  then_setup (err e, s, w) k = (err e, s, w)

  abbrev pub outcome : Reply → Result ConnectError (Unit {0})
  outcome r = reject r.failed command_failed

  abbrev pub load_secret : (suffix kind owner secret : Text) → Connection → World → Setup
  load_secret suffix kind owner secret s w =
      let id = s.name ++ suffix in
      let c = load_shared id kind owner secret in
      (outcome (daemon w.sent c), record s { keys = s.keys ++ (id ∷ []) }, send w c)

  abbrev pub load_connection : Option ℕ → Connection → World → Setup
  load_connection relay s w =
      let c = load_conn s.name (config s.name relay) in
      (outcome (daemon w.sent c), record s { loaded = true }, send w c)

  unfoldable pub initiate_all : List (ℕ × Bool) → Connection → World → Setup
  initiate_all [] s w = (ok tt, s, w)
  initiate_all ((i, six) ∷ rest) s w =
      let c = initiate s.name (child_name s.name i) in
      then_setup (outcome (daemon w.sent c), record s { initiated = true }, send w c)
        (λ s' w'. initiate_all rest s' w')

  abbrev pub from_info : Bool → Connection → World → Result InfoError Info → Setup
  from_info canceled' s w (err e) = (err (bad_state e), s, w)
  from_info canceled' s w (ok i) = (reject canceled' canceled, record s { info = some i }, w)

  -- Reading the negotiated state, and the last look at the context.
  abbrev pub read_state : Option ℕ → Bool → Connection → World → Setup
  read_state relay canceled' s w =
      let r = daemon w.sent (list_sas s.name) in
      if r.failed
      then (err command_failed, s, send w (list_sas s.name))
      else from_info canceled' s (send w (list_sas s.name))
          (info net o (not (is_nil relay)) s.name r.messages)

  abbrev pub negotiate : Option ℕ → Bool → Connection → World → Setup
  negotiate relay canceled' s w =
      then_setup (initiate_all (child_selectors o.ip_mode) s w) (read_state relay canceled')

  abbrev pub propose : Option ℕ → Bool → Connection → World → Setup
  propose relay canceled' s w = then_setup (load_connection relay s w) (negotiate relay canceled')

  abbrev pub load_eap : Option ℕ → Bool → Connection → World → Setup
  load_eap relay canceled' s w =
      then_setup (load_secret (codes "-eap") (codes "EAP") o.username o.password s w)
        (propose relay canceled')

  -- The two credentials, the connection, its children, and what was negotiated.
  unfoldable pub setup : Option ℕ → Bool → Connection → World → Setup
  unfolding initiate_all
  setup relay canceled' s w =
      then_setup (load_secret (codes "-ike") (codes "IKE") o.remote_id o.psk s w)
        (load_eap relay canceled')

  abbrev pub new_connection : Text → Connection
  new_connection token = record {
    name = codes "fortivpn-" ++ token;
    keys = [];
    loaded = false;
    initiated = false;
    info = none;
    closed = false;
    close_failed = false;
  }

  -- The deferred `Close` of a setup that failed.
  abbrev pub finish : Setup → Step Connection
  finish (ok _, s, w) = (ok s, w)
  finish (err e, s, w) = (err e, (close s w).1)

  -- From the relay on: `token` is what the random source gives, in hexadecimal.
  abbrev pub connect_through : Option ℕ → Option Text → Bool → World → Step Connection
  connect_through relay none canceled' w = (err no_random, record w { relay_open = false })
  connect_through relay (some token) canceled' w =
      finish (setup relay canceled' (new_connection token) w)

  -- `dialed` is the local port of the relay that `tcptransport.Dial` opens, if it succeeds.
  abbrev pub connect_by : Option ℕ → Option Text → Bool → World → Step Connection
  connect_by dialed token canceled' w =
      if text_eq o.transport tcp
      then (if is_nil dialed
          then (err dial_failed, w)
          else connect_through dialed token canceled' (record w { relay_open = true }))
      else connect_through none token canceled' w

  unfoldable pub connect : Option ℕ → Option Text → Bool → World → Step Connection
  unfolding preflight setup close
  connect dialed token canceled' w = and_then (preflight w) (connect_by dialed token canceled')
