-- ===== src/Auth.antt =====
-- internal/auth/password.go, and the callback of internal/auth/saml.go.
pub mod Callbacks
mod Examples
use fortivpn_go.Prelude.{
  ℕ, ◌/◌, Bool, not, ◌&&◌, ◌||◌, Option, none, some, List, [], ◌∷◌, ltb, if◌then◌else◌, err, Text,
  codes, is_empty, text_eq, trim_space, byte_len,
}
use fortivpn_go.Fortinet.Client.{
  Request, empty_credentials, Library, Gateway, Sent, request, authenticate_saml,
  authenticate_password,
}

-- A request at the callback listener: whether it is a GET, its path, and its first `id`.
pub record CallbackRequest : Type 0 where
  pub is_get : Bool
  pub path : Text
  pub id : Text

pub data Reply : Type 0 where
  not_found invalid_callback authentication_complete already_received : Reply

-- The channel `result`, with room for one id.
abbrev pub Slot : Type 0
Slot = Option Text

abbrev pub offer : Text → Slot → Slot × Reply
offer id none = (some id, authentication_complete)
offer id (some first) = (some first, already_received)

abbrev pub max_id : ℕ
max_id = 4096

abbrev pub is_bad_id : Text → Bool
is_bad_id id = is_empty id || ltb max_id (byte_len id)

abbrev pub is_root : CallbackRequest → Bool
is_root r = r.is_get && text_eq r.path (codes "/")

-- The handler of the listener.
unfoldable pub callback : Slot → CallbackRequest → Slot × Reply
callback slot r =
    if not (is_root r)
    then (slot, not_found)
    else if is_bad_id (trim_space r.id)
    then (slot, invalid_callback)
    else offer (trim_space r.id) slot

-- The requests before the id is taken from the channel.
unfoldable pub callbacks : Slot → List CallbackRequest → Slot × List Reply
unfolding callback
callbacks slot [] = (slot, [])
callbacks slot (r ∷ rs) =
    let (next, reply) = callback slot r in
    let (last, replies) = callbacks next rs in (last, reply ∷ replies)

module _ (lib : Library) (gw : Gateway) where
  abbrev pub receive : Slot → List Request → Option (Sent (Unit {0}))
  receive none sent = none
  receive (some id) sent = some (authenticate_saml lib gw id sent)

  -- `SAMLAuthenticator.Authenticate`, where it takes the id; none while there is none
  unfoldable pub receive_session : List CallbackRequest → List Request → Option (Sent (Unit {0}))
  unfolding callbacks authenticate_saml
  receive_session rs sent = receive (callbacks none rs).0 sent

  -- `PasswordAuthenticator.Authenticate`
  unfoldable pub authenticate : (username password realm : Text) → List Request → Sent (Unit {0})
  unfolding authenticate_password
  authenticate username password realm sent =
      if is_empty (trim_space username) || is_empty password
      then (err empty_credentials, sent)
      else authenticate_password lib gw username password realm sent
