-- ===== src/Fortinet/Settings/Document.antt =====
-- internal/fortinet/xml.go: `ParseNetworkConfig`, over the tokens of the document.
pub mod Sound
use fortivpn_go.Prelude.{
  ℕ, suc, Bool, true, false, not, ◌&&◌, Option, none, some, List, [], ◌∷◌, ◌==◌, if◌then◌else◌, pos,
  Text, codes, text_eq, to_lower,
}
use fortivpn_go.Netip.{Addr, unset, v4, v6, prefix_from, AddrText}
use fortivpn_go.Network.{ipv4, ipv6, other, Route, Config}
use fortivpn_go.Fortinet.Settings.{Attrs, attributes, attr, first}
use fortivpn_go.Fortinet.Settings.Elements.{put_route, parse_element, parse_text}

-- The tokens that the code looks at; comments and the like are `other_token`.
pub data Token : Type 0 where
  start_element : (name : Text) (attrs : List (Text × Text)) → Token
  char_data : Text → Token
  end_element other_token : Token

-- What the decoder gives: its tokens, and whether it ends with an error other than the end.
pub record Tokens : Type 0 where
  pub tokens : List Token
  pub failed : Bool

-- `xmlFrame`; a family is 4, 6, or 0 for none.
pub record XmlFrame : Type 0 where
  pub name : Text
  pub attrs : Attrs
  pub family : ℕ
  pub route_count : ℕ

-- The stack, the innermost element first.
abbrev pub Stack : Type 0
Stack = List XmlFrame

unfoldable pub family_of : Stack → ℕ
family_of [] = 0
family_of (frame ∷ stack) = frame.family

abbrev pub element_family : Text → ℕ → ℕ
element_family name outer =
    if text_eq name (codes "ipv4") then 4 else if text_eq name (codes "ipv6") then 6 else outer

abbrev pub split_tunnel_info : Text
split_tunnel_info = codes "split-tunnel-info"

unfoldable pub mark_enclosing : Stack → Stack
mark_enclosing [] = []
mark_enclosing (frame ∷ stack) =
    let rest = mark_enclosing stack in
    if text_eq frame.name split_tunnel_info
    then record frame { route_count = suc frame.route_count } ∷ stack
    else frame ∷ rest

-- `markRoute`: the innermost split-tunnel-info around the last element.
unfoldable pub mark_route : Stack → Stack
unfolding mark_enclosing
mark_route [] = []
mark_route (frame ∷ stack) = frame ∷ mark_enclosing stack

abbrev pub default_route : Addr → Route
default_route a = record { destination = prefix_from a (pos 0); gateway = unset }

-- `addDefaultRoute`
unfoldable pub add_default_route : Config → ℕ → Config
add_default_route c family =
    if family == 4
    then put_route false c (default_route (v4 0))
    else if family == 6
    then put_route true c (default_route (v6 0 []))
    else c

abbrev pub is_open_tunnel : XmlFrame → Bool
is_open_tunnel frame =
    text_eq frame.name split_tunnel_info
    && (frame.route_count == 0)
    && not (text_eq (attr frame.attrs (codes "negate")) (codes "1"))

module _ (net : AddrText) where
  abbrev pub pushed : Stack → Config × Bool → Config × Stack
  pushed stack (c, added) = (c, if added then mark_route stack else stack)

  -- One token.
  unfoldable pub parse_token : Config × Stack → Token → Config × Stack
  unfolding parse_element parse_text mark_route add_default_route family_of
  parse_token (c, stack) (start_element raw raw_attrs) =
      let name = to_lower raw in
      let attrs = attributes raw_attrs in
      let frame : XmlFrame = record {
        name = name;
        attrs = attrs;
        family = element_family name (family_of stack);
        route_count = 0;
      } in
      pushed (frame ∷ stack) (parse_element net c name attrs)
  parse_token (c, []) (char_data raw) = (c, [])
  parse_token (c, frame ∷ stack) (char_data raw) = (parse_text net c frame.name raw, frame ∷ stack)
  parse_token (c, []) end_element = (c, [])
  parse_token (c, frame ∷ stack) end_element =
      (if is_open_tunnel frame then add_default_route c frame.family else c, stack)
  parse_token (c, stack) other_token = (c, stack)

  unfoldable pub parse_tokens : Config × Stack → List Token → Config × Stack
  unfolding parse_token
  parse_tokens s [] = s
  parse_tokens s (t ∷ ts) = parse_tokens (parse_token s t) ts

  abbrev pub no_settings : Config
  no_settings = record {
    ipv4_config = none;
    ipv6_config = none;
    dns = [];
    domains = [];
    routes4 = [];
    routes6 = [];
    mtu = pos 0;
    tunnel_methods = [];
  }

  -- `ParseNetworkConfig`, none for the decoder's error
  unfoldable pub parse_network_config : Tokens → Option Config
  unfolding parse_tokens
  parse_network_config doc =
      let parsed = parse_tokens (no_settings, []) doc.tokens in
      if doc.failed then none else some parsed.0
