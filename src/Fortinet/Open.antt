-- ===== src/Fortinet/Open.antt =====
-- internal/fortinet/tunnel.go: `OpenTunnel2`, up to the first packet.
pub mod Accepted
mod Examples
use fortivpn_go.Prelude.{
  ℕ, suc, Bool, not, Option, none, some, List, [], ◌∷◌, ◌++◌, leb, ◌==◌, if◌then◌else◌, length,
  take, Result, err, ok, Text, codes, is_empty, text_eq,
}
use fortivpn_go.Netip.{Addr, addr_is_valid}
use fortivpn_go.Fortinet.Client.{is_success, request}

pub data OpenError : Type 0 where
  no_cookie no_uuid bad_url dial_failed handshake_failed bad_request no_hostname : OpenError
  write_failed no_deadline closed_early response_failed http_success : OpenError
  http_rejected : ℕ → OpenError

-- What follows the bytes that arrive before the deadline: nothing, the end, or an error.
pub data Following : Type 0 where
  timeout end_of_stream stream_error : Following

pub record Opening : Type 0 where
  pub bytes : List ℕ
  pub following : Following

-- What is done: a connection is dialed, a request with a query and a host name is written, and the
-- connection is closed.
pub data OpenEffect : Type 0 where
  dialed closed : OpenEffect
  written : (query : List (Text × Text)) (hostname : Text) → OpenEffect

-- What net, crypto/tls, net/http, os and strconv give: each call that may fail, by its outcome, and
-- the status of an HTTP response if one can be read.
pub record Dialing : Type 0 where
  pub has_cookie : Bool
  pub new_uuid : Option Text
  pub parses_url : Bool
  pub dials : Bool
  pub handshakes : Bool
  pub makes_request : Bool
  pub hostname : Option Text
  pub writes : Bool
  pub sets_deadline : Bool
  pub opening : Opening
  pub response : Option ℕ
  pub itoa : ℕ → Text
  pub addr_string : Addr → Text

-- `Peek`: the first bytes, or what ended the wait for them.
abbrev pub peek : ℕ → Opening → Result Following (List ℕ)
peek n o = if leb n (length o.bytes) then ok (take n o.bytes) else err o.following

abbrev pub http_prefix : List ℕ
http_prefix = codes "HTTP/"

abbrev pub Opened : Type 0
Opened = Result OpenError (Unit {0})

-- An HTTP response is never what is wanted.
abbrev pub read_response : Option ℕ → Opened
read_response none = err response_failed
read_response (some status) =
    if is_success status then err http_success else err (http_rejected status)

abbrev pub no_first_byte : Following → Opened
no_first_byte timeout = ok tt
no_first_byte end_of_stream = err closed_early
no_first_byte stream_error = err response_failed

abbrev pub no_prefix : Following → Opened
no_prefix timeout = ok tt
no_prefix following = err response_failed

abbrev pub after_prefix : Option ℕ → Result Following (List ℕ) → Opened
after_prefix response (err f) = no_prefix f
after_prefix response (ok prefix) =
    if not (text_eq prefix http_prefix) then ok tt else read_response response

abbrev pub after_first_byte : Opening → Option ℕ → Result Following (List ℕ) → Opened
after_first_byte o response (err f) = no_first_byte f
after_first_byte o response (ok []) = ok tt
after_first_byte o response (ok (c ∷ s)) =
    if not (c == b'H') then ok tt else after_prefix response (peek (length http_prefix) o)

-- `awaitInitialTunnelResponse`
unfoldable pub await_initial_tunnel_response : Bool → Opening → Option ℕ → Opened
await_initial_tunnel_response sets_deadline o response =
    if not sets_deadline then err no_deadline else after_first_byte o response (peek 1 o)

module _ (net : Dialing) where
  -- The valid servers, each under its place in the list.
  unfoldable pub dns_query : ℕ → List Addr → List (Text × Text)
  dns_query n [] = []
  dns_query n (a ∷ dns) =
      let rest = dns_query (suc n) dns in
      if addr_is_valid a then (codes "dns" ++ net.itoa n, net.addr_string a) ∷ rest else rest

  abbrev pub close_unless : Opened → List OpenEffect → Opened × List OpenEffect
  close_unless (ok u) done = (ok u, done)
  close_unless (err e) done = (err e, done ++ (closed ∷ []))

  abbrev pub with_hostname : List (Text × Text) → Option Text → Opened × List OpenEffect
  with_hostname query none = (err no_hostname, dialed ∷ closed ∷ [])
  with_hostname query (some hostname) =
      if not net.writes
      then (err write_failed, dialed ∷ closed ∷ [])
      else close_unless (await_initial_tunnel_response net.sets_deadline net.opening net.response)
          (dialed ∷ written query hostname ∷ [])

  abbrev pub with_uuid : List Addr → Option Text → Opened × List OpenEffect
  with_uuid dns none = (err no_uuid, [])
  with_uuid dns (some uuid) =
      if not net.parses_url
      then (err bad_url, [])
      else if not net.dials
      then (err dial_failed, [])
      else if not net.handshakes
      then (err handshake_failed, dialed ∷ closed ∷ [])
      else if not net.makes_request
      then (err bad_request, dialed ∷ closed ∷ [])
      else with_hostname ((codes "uuid", uuid) ∷ dns_query 0 dns) net.hostname

  abbrev pub uuid_or_new : Text → Option Text
  uuid_or_new uuid = if is_empty uuid then net.new_uuid else some uuid

  -- `OpenTunnel2`
  unfoldable pub open_tunnel : Text → List Addr → Opened × List OpenEffect
  unfolding dns_query await_initial_tunnel_response
  open_tunnel uuid dns =
      if not net.has_cookie then (err no_cookie, []) else with_uuid dns (uuid_or_new uuid)
