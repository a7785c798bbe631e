-- ===== src/Fortinet/Client/Demo.antt =====
-- A gateway that logs in over one redirect, for the tests.
use fortivpn_go.Prelude.{false, none, some, List, [], ◌∷◌, Text, codes}
use fortivpn_go.Netip.{AddrText}
use fortivpn_go.Fortinet.Client.{Request, Answer, answered, Library, Gateway}

abbrev pub no_addrs : AddrText
no_addrs = record {
  parse_addr = λ t. none;
  parse_prefix = λ t. none;
  addr_string = λ a. [];
  prefix_string = λ p. [];
}

abbrev pub demo : Library
demo = record {
  query_escape = λ t. t;
  query_unescape = λ t. some t;
  parse_reference = λ t. some (record { is_abs = false; host = []; path = t; request_uri = t });
  decode = λ body. record { tokens = []; failed = false };
  net = no_addrs;
}

abbrev pub redirect : Text
redirect = codes "ret=1,redir=/remote/check, "

abbrev pub demo_answer : List Request → Request → Answer
demo_answer [] r = answered 200 redirect
demo_answer (q ∷ sent) r = answered 200 []

-- The cookie comes with the second answer.
abbrev pub demo_cookies : List Request → List (Text × Text)
demo_cookies [] = []
demo_cookies (q ∷ []) = []
demo_cookies (q ∷ r ∷ sent) = (codes "SVPNCOOKIE", codes "x") ∷ []

abbrev pub portal : Gateway
portal = record { answer = demo_answer; cookies = demo_cookies }

abbrev pub bob : Text
bob = codes "bob"

abbrev pub secret : Text
secret = codes "secret"
