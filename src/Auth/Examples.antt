-- ===== src/Auth/Examples.antt =====
-- Callbacks, and the theorem at them.
use fortivpn_go.Prelude.{
  ◌≡◌, refl, true, none, some, List, [], ◌∷◌, Text, codes, text_eq, trim_space, byte_len,
}
use fortivpn_go.Fortinet.Client.Demo.{demo, portal}
use fortivpn_go.Auth.{
  CallbackRequest, not_found, invalid_callback, authentication_complete, already_received, callback,
  callbacks, receive_session,
}
use fortivpn_go.Auth.Callbacks.{first_valid, HasReceived, receive_session-callbacks}

abbrev ask : Text → Text → CallbackRequest
ask path id = record { is_get = true; path = path; id = id }

abbrev three : List CallbackRequest
three =
    ask (codes "/favicon.ico") []
    ∷ ask (codes "/") (codes "  ")
    ∷ ask (codes "/") (codes " id1 ")
    ∷ ask (codes "/") (codes "id2")
    ∷ []

answered-three : callbacks none three ≡ (
  some (codes "id1"),
  not_found ∷ invalid_callback ∷ authentication_complete ∷ already_received ∷ [],
)
unfolding callbacks callback text_eq trim_space byte_len
answered-three = refl

receive_session-callbacks_example :
    HasReceived demo portal (first_valid three) [] (receive_session demo portal three [])
receive_session-callbacks_example = receive_session-callbacks demo portal three []
