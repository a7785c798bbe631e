-- ===== src/Fortinet/Settings/Document/Sound.antt =====
-- What the settings that `ParseNetworkConfig` of internal/fortinet/xml.go reads satisfy.
use mathlib.Core.Path.{subst}
use fortivpn_go.Prelude.{
  ℕ, ◌≡◌, refl, inl, inr, Bool, true, false, none, some, List, [], ◌∷◌, ◌==◌, if◌then◌else◌,
  to_lower,
}
use fortivpn_go.Netip.{v4, v6, prefix_from, masked, AddrText}
use fortivpn_go.Network.{Config}
use fortivpn_go.Fortinet.Settings.{attributes}
use fortivpn_go.Fortinet.Settings.Elements.{put_route}
use fortivpn_go.Fortinet.Settings.Elements.Sound.{
  IsParsed, if-IsParsed, put_route-IsParsed, parse_element-IsParsed, parse_text-IsParsed,
}
use fortivpn_go.Fortinet.Settings.Document.{
  Token, start_element, char_data, end_element, other_token, Tokens, Stack, default_route,
  add_default_route, is_open_tunnel, parse_token, parse_tokens, no_settings, parse_network_config,
}

unfailed : (failed : Bool) (d c : Config) → (if failed then none else some d) ≡ some c → d ≡ c
unfailed true d c h = cc
unfailed false d c h = cc

module _ (net : AddrText) where
  add_default_route-IsParsed :
      (c : Config) (family : ℕ) → IsParsed c → IsParsed (add_default_route c family)
  unfolding add_default_route prefix_from masked
  add_default_route-IsParsed c family h =
      if-IsParsed (family == 4) (put_route false c (default_route (v4 0))) _
        (put_route-IsParsed false c (default_route (v4 0)) (inl refl, refl, inl refl) h)
        (if-IsParsed (family == 6) (put_route true c (default_route (v6 0 []))) c
          (put_route-IsParsed true c (default_route (v6 0 [])) (inl refl, refl, inr refl) h) h)

  parse_token-IsParsed :
      (c : Config) (stack : Stack) (t : Token)
      → IsParsed c
      → IsParsed (parse_token net (c, stack) t).0
  unfolding parse_token
  parse_token-IsParsed c stack (start_element raw attrs) h =
      parse_element-IsParsed net c (to_lower raw) (attributes attrs) h
  parse_token-IsParsed c [] (char_data raw) h = h
  parse_token-IsParsed c (frame ∷ stack) (char_data raw) h =
      parse_text-IsParsed net c frame.name raw h
  parse_token-IsParsed c [] end_element h = h
  parse_token-IsParsed c (frame ∷ stack) end_element h =
      if-IsParsed (is_open_tunnel frame) (add_default_route c frame.family) c
        (add_default_route-IsParsed c frame.family h) h
  parse_token-IsParsed c stack other_token h = h

  parse_tokens-IsParsed :
      (s : Config × Stack) (ts : List Token) → IsParsed s.0 → IsParsed (parse_tokens net s ts).0
  unfolding parse_tokens
  parse_tokens-IsParsed s [] h = h
  parse_tokens-IsParsed s (t ∷ ts) h =
      parse_tokens-IsParsed (parse_token net s t) ts (parse_token-IsParsed s.0 s.1 t h)

  -- Whatever document the gateway sends, the settings that are read from it repeat no DNS server,
  -- search domain, tunnel method or route; no domain is empty; the MTU is not negative; a route
  -- stands in the list of its destination's family, unless its length was out of range; its
  -- destination starts at its network's address; and its gateway is of the list's family.
  pub parse_network_config-IsParsed :
      (doc : Tokens) (c : Config) → parse_network_config net doc ≡ some c → IsParsed c
  unfolding parse_network_config
  parse_network_config-IsParsed doc c h =
      let parsed = parse_tokens net (no_settings net, []) doc.tokens in
      let e = unfailed doc.failed parsed.0 c h in
      subst IsParsed e (
        parse_tokens-IsParsed (no_settings net, []) doc.tokens
          (tt, (tt, tt), tt, (tt, tt), (tt, tt), refl))
