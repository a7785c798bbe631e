-- ===== src/Fortinet/Client/Examples.antt =====
-- The theorems at a gateway that logs in over one redirect.
use fortivpn_go.Prelude.{
  ◌≡◌, refl, false, Option, none, some, [], ◌∷◌, ◌++◌, if◌then◌else◌, ok, ℤ, pos, Text, codes,
  is_empty, text_eq, trim_space, cut_prefix, has_prefix, contains,
}
use fortivpn_go.Network.{auto}
use fortivpn_go.Fortinet.Client.{
  Request, read_answer, after_key, until_end, trim_marks, get_request, auth_redirect_path,
  has_session_cookie, request, complete, complete_authentication, login_form, authenticate_password,
}
use fortivpn_go.Fortinet.Client.Demo.{demo, redirect, portal, bob, secret}
use fortivpn_go.Fortinet.Client.Login.{
  HasFollowed, complete-HasFollowed, HasLoggedIn, authenticate_password-HasLoggedIn,
}
use fortivpn_go.Fortinet.Client.Allocate.{network_config_for_ip_mode}
use fortivpn_go.Fortinet.Client.Endpoint.{Url, Urls, new_client}
use fortivpn_go.Fortinet.Client.Allocate.Runs.{HasAllocated}
use fortivpn_go.Fortinet.Client.Allocate.Selected.{network_config-HasAllocated}

abbrev form : Request
form = login_form demo portal bob secret []

abbrev check : Request
check = get_request (codes "/remote/check")

logged-in : authenticate_password demo portal bob secret [] [] ≡ (ok tt, check ∷ form ∷ [])
unfolding authenticate_password complete_authentication complete request auth_redirect_path
    has_session_cookie after_key until_end trim_marks read_answer text_eq trim_space has_prefix
    cut_prefix
logged-in = refl

named : is_empty (trim_space bob) ≡ false
unfolding trim_space
named = refl

authenticate_password-HasLoggedIn_example :
    HasLoggedIn demo portal [] form (authenticate_password demo portal bob secret [] [])
authenticate_password-HasLoggedIn_example =
    authenticate_password-HasLoggedIn demo portal bob secret [] [] named refl

complete-HasFollowed_example :
    HasFollowed demo portal 4 (form ∷ []) (complete demo portal 4 redirect (form ∷ []))
complete-HasFollowed_example = complete-HasFollowed demo portal 4 redirect (form ∷ [])

network_config-HasAllocated_example :
    HasAllocated demo portal auto [] (network_config_for_ip_mode demo portal auto [])
network_config-HasAllocated_example = network_config-HasAllocated demo portal auto []

-- A host without a port.
abbrev demo_parse : Text → Option Url
demo_parse t =
    if text_eq t (codes "https://vpn.example.test")
    then some (record {
      scheme = codes "https";
      host = codes "vpn.example.test";
      path = [];
      raw_query = [];
      fragment = [];
    })
    else none

abbrev demo_urls : Urls
demo_urls = record {
  parse = demo_parse;
  hostname = λ t. t;
  port = λ t. [];
  join_host_port = λ h p. h ++ codes ":" ++ p;
  itoa = λ n. codes "10443";
}

abbrev given_port : ℤ
given_port = pos 10443

endpoint-made :
    new_client demo_urls (codes " vpn.example.test ") given_port
    ≡ ok (record {
      scheme = codes "https";
      host = codes "vpn.example.test:10443";
      path = [];
      raw_query = [];
      fragment = [];
    })
unfolding new_client text_eq trim_space contains has_prefix cut_prefix
endpoint-made = refl

-- The hostname of an IPv6 literal has no brackets, and the host with a port gets none.
abbrev literal_urls : Urls
literal_urls = record demo_urls {
  parse = λ t. some (record {
    scheme = codes "https";
    host = codes "[::1]";
    path = [];
    raw_query = [];
    fragment = [];
  });
  hostname = λ t. codes "::1";
  itoa = λ n. codes "443";
}

literal_unbracketed :
    new_client literal_urls (codes "[::1]") (pos 443)
    ≡ ok (record {
      scheme = codes "https";
      host = codes "::1:443";
      path = [];
      raw_query = [];
      fragment = [];
    })
unfolding new_client text_eq trim_space contains has_prefix cut_prefix
literal_unbracketed = refl
