-- ===== src/Fortinet/Open/Examples.antt =====
-- Endpoints that accept and refuse, and the theorem at one.
use fortivpn_go.Prelude.{◌≡◌, refl, true, none, some, List, [], ◌∷◌, ok, codes}
use fortivpn_go.Netip.{Addr, unset, v4}
use fortivpn_go.Fortinet.Open.{
  timeout, end_of_stream, dialed, written, Dialing, await_initial_tunnel_response, dns_query,
  open_tunnel,
}

abbrev accepting : Dialing
accepting = record {
  has_cookie = true;
  new_uuid = some (codes "U");
  parses_url = true;
  dials = true;
  handshakes = true;
  makes_request = true;
  hostname = some (codes "host");
  writes = true;
  sets_deadline = true;
  opening = record { bytes = []; following = timeout };
  response = none;
  itoa = λ n. codes "1";
  addr_string = λ a. codes "10.0.0.53";
}

abbrev refusing : Dialing
refusing = record accepting {
  opening = record { bytes = codes "HTTP/1.1 403 Forbidden"; following = end_of_stream };
  response = some 403;
}

abbrev servers : List Addr
servers = unset ∷ v4 0x0a000035 ∷ []

accepted : open_tunnel accepting [] servers ≡ (
  ok tt,
  dialed
      ∷ written ((codes "uuid", codes "U") ∷ (codes "dns1", codes "10.0.0.53") ∷ []) (codes "host")
      ∷ [],
)
unfolding open_tunnel dns_query await_initial_tunnel_response
accepted = refl
