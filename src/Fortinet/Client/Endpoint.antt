-- ===== src/Fortinet/Client/Endpoint.antt =====
-- `NewClient`, `url` and `gatewayHostHeader` of internal/fortinet/client.go: where requests go.
pub mod Base
use fortivpn_go.Prelude.{
  ◌/◌, Bool, not, ◌&&◌, ◌||◌, Option, none, some, [], ◌++◌, if◌then◌else◌, Result, err, ok, ℤ,
  is_below, is_above, is_zero, Text, codes, is_empty, text_eq, trim_space, contains,
}

-- The fields of `url.URL` that the code reads and writes.
pub record Url : Type 0 where
  pub scheme : Text
  pub host : Text
  pub path : Text
  pub raw_query : Text
  pub fragment : Text

-- What the code calls of net, net/url and strconv.
pub record Urls : Type 0 where
  pub parse : Text → Option Url
  pub hostname : Text → Text
  pub port : Text → Text
  pub join_host_port : Text → Text → Text
  pub itoa : ℤ → Text

pub data EndpointError : Type 0 where
  invalid_port gateway_required bad_gateway : EndpointError

abbrev pub with_scheme : Text → Text
with_scheme raw = if contains (codes "://") raw then raw else codes "https://" ++ raw

abbrev pub is_out_of_range : ℤ → Bool
is_out_of_range port = is_below port 0 || is_above port 65535

abbrev pub slash : Text
slash = codes "/"

module _ (urls : Urls) where
  abbrev pub is_endpoint : Url → Bool
  is_endpoint u =
      text_eq u.scheme (codes "https")
      && not (is_empty (urls.hostname u.host))
      && (is_empty u.path || text_eq u.path slash)

  -- The host with the port that is asked for.
  abbrev pub host_of : Url → ℤ → Text
  host_of u port =
      if is_zero port then u.host else urls.hostname u.host ++ codes ":" ++ urls.itoa port

  abbrev pub based_on : Url → ℤ → Url
  based_on u port = record {
    scheme = u.scheme;
    host = host_of u port;
    path = [];
    raw_query = [];
    fragment = [];
  }

  abbrev pub base_of : Option Url → ℤ → Result EndpointError Url
  base_of none port = err bad_gateway
  base_of (some u) port = if is_endpoint u then ok (based_on u port) else err bad_gateway

  -- `NewClient`, as the base address of the client
  unfoldable pub new_client : (gateway : Text) (port : ℤ) → Result EndpointError Url
  new_client gateway port =
      if is_out_of_range port
      then err invalid_port
      else if is_empty (trim_space gateway)
      then err gateway_required
      else base_of (urls.parse (with_scheme (trim_space gateway))) port

  abbrev pub placed : Url → Option Url → Option Url
  placed base none = none
  placed base (some r) = some (record base { path = r.path; raw_query = r.raw_query })

  -- `url`; none is the panic at a path that is not a reference.
  unfoldable pub url : Url → Text → Option Url
  url base path = placed base (urls.parse path)

  -- `gatewayHostHeader`
  unfoldable pub gateway_host_header : Url → Text
  gateway_host_header base =
      let port = urls.port base.host in
      urls.join_host_port (urls.hostname base.host) (if is_empty port then codes "443" else port)
