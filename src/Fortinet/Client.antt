-- ===== src/Fortinet/Client.antt =====
-- internal/fortinet/client.go: the requests of the HTTPS control plane and what their answers mean.
pub mod Login
pub mod Allocate
pub mod Endpoint
pub mod Demo
mod Examples
use fortivpn_go.Prelude.{
  ℕ, zero, suc, ◌*◌, ◌^◌, Bool, not, ◌&&◌, ◌||◌, Option, none, some, List, [], ◌∷◌, ◌++◌, reverse,
  ltb, leb, ◌==◌, if◌then◌else◌, take, any, all, Result, err, ok, Text, codes, is_empty, text_eq,
  trim_space, cut_prefix, has_prefix,
}
use fortivpn_go.Netip.{AddrText}
use fortivpn_go.Network.{ModeError}
use fortivpn_go.Fortinet.Settings.Document.{Tokens}

pub data Method : Type 0 where
  get post : Method

pub record Request : Type 0 where
  pub method : Method
  pub path : Text
  pub form : List (Text × Text)

-- No answer; an answer of which the body arrives; an answer whose body breaks off below `max_body`.
-- A redirect that net/http follows by itself is a part of the answer.
pub data Answer : Type 0 where
  unanswered : Answer
  answered broken_body : (status : ℕ) (body : Text) → Answer

pub data ClientError : Type 0 where
  not_sent body_lost empty_session_id empty_credentials session_cookie_missing : ClientError
  invalid_password bad_document : ClientError
  http_status : ℕ → ClientError
  ip_mode_error : ModeError → ClientError

-- What `url.Parse` gives of a reference.
pub record Reference : Type 0 where
  pub is_abs : Bool
  pub host : Text
  pub path : Text
  pub request_uri : Text

-- What the code calls of net/url, encoding/xml and net/netip.
pub record Library : Type 0 where
  pub query_escape : Text → Text
  pub query_unescape : Text → Option Text
  pub parse_reference : Text → Option Reference
  pub decode : Text → Tokens
  pub net : AddrText

-- The gateway answers a request, and sets cookies for /remote/, by the requests that it saw, the
-- latest first.
pub record Gateway : Type 0 where
  pub answer : List Request → Request → Answer
  pub cookies : List Request → List (Text × Text)

abbrev pub max_body : ℕ
max_body = 4 * 2 ^ 20

abbrev pub is_success : ℕ → Bool
is_success status = leb 200 status && ltb status 300

unfoldable pub read_answer : Answer → Result ClientError Text
read_answer unanswered = err not_sent
read_answer (answered status body) =
    if is_success status then ok (take max_body body) else err (http_status status)
read_answer (broken_body status body) =
    if is_success status then err body_lost else err (http_status status)

-- The text behind the first occurrence of `key`.
unfoldable pub after_key : Text → Text → Option Text
after_key key [] = cut_prefix key []
after_key key (c ∷ s) =
    let rest = after_key key s in if has_prefix key (c ∷ s) then cut_prefix key (c ∷ s) else rest

-- `strings.IndexAny(value, "\r\n\t <\"")`
abbrev pub is_end : ℕ → Bool
is_end c = c == 13 || c == 10 || c == 9 || c == b' ' || c == b'<' || c == b'"'

unfoldable pub until_end : Text → Text
until_end [] = []
until_end (c ∷ s) = let rest = until_end s in if is_end c then [] else c ∷ rest

abbrev pub drop_marks : Text → Text
drop_marks [] = []
drop_marks (c ∷ s) = let rest = drop_marks s in if c == b',' || c == b';' then rest else c ∷ s

-- `strings.TrimRight(value, ",;")`
unfoldable pub trim_marks : Text → Text
trim_marks s = reverse (drop_marks (reverse s))

abbrev pub is_local : Reference → Bool
is_local r = not r.is_abs && is_empty r.host && has_prefix (codes "/remote/") r.path

abbrev pub local_uri : Option Reference → Option Text
local_uri none = none
local_uri (some r) = if is_local r then some r.request_uri else none

-- A call's result, and all requests that were sent.
abbrev pub Sent : Type 0 → Type 0
Sent A = Result ClientError A × List Request

abbrev pub get_request : Text → Request
get_request p = record { method = get; path = p; form = [] }

abbrev pub session_cookie : Text × Text → Bool
session_cookie (name, value) = text_eq name (codes "SVPNCOOKIE") && not (is_empty value)

module _ (lib : Library) (gw : Gateway) where
  abbrev pub decoded_reference : Option Text → Option Reference
  decoded_reference none = none
  decoded_reference (some s) = lib.parse_reference s

  abbrev pub redirect_value : Option Text → Option Text
  redirect_value none = none
  redirect_value (some value) =
      local_uri (decoded_reference (lib.query_unescape (trim_marks (until_end value))))

  -- `authRedirectPath`
  unfoldable pub auth_redirect_path : Text → Option Text
  unfolding after_key until_end trim_marks
  auth_redirect_path body = redirect_value (after_key (codes "redir=") body)

  -- `hasSessionCookie`
  unfoldable pub has_session_cookie : List Request → Bool
  has_session_cookie sent = any session_cookie (gw.cookies sent)

  -- `request`
  unfoldable pub request : Request → List Request → Sent Text
  unfolding read_answer
  request r sent = (read_answer (gw.answer sent r), r ∷ sent)

  abbrev pub final_check : List Request → Sent (Unit {0})
  final_check sent = (if has_session_cookie sent then ok tt else err session_cookie_missing, sent)

  -- What comes after a request that succeeds.
  abbrev pub followed : {A : Type 0} → Sent Text → (Text → List Request → Sent A) → Sent A
  followed (ok body, sent) next = next body sent
  followed (err e, sent) next = (err e, sent)

  abbrev pub follow :
      Option Text → List Request → (Text → List Request → Sent (Unit {0})) → Sent (Unit {0})
  follow none sent next = final_check sent
  follow (some path) sent next = followed (request (get_request path) sent) next

  -- The loop of `completeAuthentication`, with the rounds that are left.
  unfoldable pub complete : ℕ → Text → List Request → Sent (Unit {0})
  unfolding auth_redirect_path has_session_cookie request
  complete zero response sent = final_check sent
  complete (suc rounds) response sent =
      if has_session_cookie sent
      then (ok tt, sent)
      else follow (auth_redirect_path response) sent (λ body sent'. complete rounds body sent')

  unfoldable pub complete_authentication : Text → List Request → Sent (Unit {0})
  unfolding complete
  complete_authentication response sent = complete 4 response sent

  -- `AuthenticateSAML`
  unfoldable pub authenticate_saml : Text → List Request → Sent (Unit {0})
  unfolding complete_authentication
  authenticate_saml session_id sent =
      if is_empty (trim_space session_id)
      then (err empty_session_id, sent)
      else followed
          (request (get_request (codes "/remote/saml/auth_id?id=" ++ lib.query_escape session_id))
            sent)
          complete_authentication

  abbrev pub login_form : (username password realm : Text) → Request
  login_form username password realm = record {
    method = post;
    path = codes "/remote/logincheck";
    form =
        (codes "username", username)
        ∷ (codes "credential", password)
        ∷ (codes "realm", realm)
        ∷ (codes "ajax", codes "1")
        ∷ [];
  }

  -- A refusal of the form is an invalid password.
  abbrev pub refused_login : ClientError → ClientError
  refused_login (http_status s) = if s == 401 || s == 403 then invalid_password else http_status s
  refused_login e = e

  abbrev pub refused_session : ClientError → ClientError
  refused_session session_cookie_missing = invalid_password
  refused_session e = e

  abbrev pub map_error : (ClientError → ClientError) → Sent (Unit {0}) → Sent (Unit {0})
  map_error f (ok u, sent) = (ok u, sent)
  map_error f (err e, sent) = (err (f e), sent)

  abbrev pub after_login : Sent Text → Sent (Unit {0})
  after_login (ok body, sent) = map_error refused_session (complete_authentication body sent)
  after_login (err e, sent) = (err (refused_login e), sent)

  -- `AuthenticatePassword`
  unfoldable pub authenticate_password :
      (username password realm : Text) → List Request → Sent (Unit {0})
  unfolding complete_authentication request
  authenticate_password username password realm sent =
      if is_empty (trim_space username) || is_empty password
      then (err empty_credentials, sent)
      else after_login (request (login_form username password realm) sent)
