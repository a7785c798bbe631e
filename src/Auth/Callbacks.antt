-- ===== src/Auth/Callbacks.antt =====
-- The session id that the callbacks of internal/auth/saml.go give, and its exchange.
use fortivpn_go.Prelude.{
  ◌≡◌, refl, ◌∙◌, inl, inr, Bool, true, false, not, ◌&&◌, ◌||◌, Option, none, some, List, [], ◌∷◌,
  ◌++◌, arith, if◌then◌else◌, Bool-cases, Option-cases, trim_again, Text, codes, is_empty,
  trim_space,
}
use fortivpn_go.Fortinet.Client.{
  Request, Library, Gateway, Sent, get_request, request, complete_authentication, authenticate_saml,
}
use fortivpn_go.Fortinet.Client.Login.{HasFollowed, followed-HasFollowed, complete-HasFollowed}
use fortivpn_go.Auth.{
  CallbackRequest, not_found, invalid_callback, Slot, offer, is_bad_id, is_root, callback,
  callbacks, receive, receive_session,
}

-- The first id that a GET of the root brings, trimmed, neither empty nor too long.
abbrev pub valid_id : CallbackRequest → Option Text
valid_id r = if is_root r && not (is_bad_id (trim_space r.id)) then some (trim_space r.id) else none

abbrev pub or_else : Option Text → Option Text → Option Text
or_else none o = o
or_else (some id) o = some id

abbrev pub first_valid : List CallbackRequest → Option Text
first_valid [] = none
first_valid (r ∷ rs) = or_else (valid_id r) (first_valid rs)

or_else_assoc : (a b c : Option Text) → or_else (or_else a b) c ≡ or_else a (or_else b c)
or_else_assoc none b c = refl
or_else_assoc (some x) b c = refl

offer-slot : (id : Text) (slot : Slot) → (offer id slot).0 ≡ or_else slot (some id)
offer-slot id none = refl
offer-slot id (some x) = refl

or_else-none : (slot : Slot) → slot ≡ or_else slot none
or_else-none none = refl
or_else-none (some x) = refl

callback-slot :
    (slot : Slot) (r : CallbackRequest) → (callback slot r).0 ≡ or_else slot (valid_id r)
unfolding callback
callback-slot slot r = by_tests (is_root r) (is_bad_id (trim_space r.id))
  where
    by_tests :
        (root bad : Bool)
        → (if not root
            then (slot, not_found)
            else if bad
            then (slot, invalid_callback)
            else offer (trim_space r.id) slot).0
          ≡ or_else slot (if root && not bad then some (trim_space r.id) else none)
    by_tests false bad = or_else-none slot
    by_tests true true = or_else-none slot
    by_tests true false = offer-slot (trim_space r.id) slot

callbacks-slot :
    (slot : Slot) (rs : List CallbackRequest)
    → (callbacks slot rs).0 ≡ or_else slot (first_valid rs)
unfolding callbacks
callbacks-slot slot [] = or_else-none slot
callbacks-slot slot (r ∷ rs) =
    callbacks-slot (callback slot r).0 rs
    ∙ rw (callback-slot slot r) refl
    ∙ or_else_assoc slot (valid_id r) (first_valid rs)

valid_id-word :
    (r : CallbackRequest) (id : Text) → valid_id r ≡ some id → is_empty (trim_space id) ≡ false
valid_id-word r id h = elim (Bool-cases (is_root r && not (is_bad_id (trim_space r.id)))) [
  | inl k ↦ let e = same (rw k at h) in let n = good_id _ _ _ k in rw (← e) (trim_again r.id ∙ n)
  | inr k ↦ let m = rw k at h in cc
]
  where
    same : some (trim_space r.id) ≡ some id → trim_space r.id ≡ id
    same m = cc

    good_id : (a b c : Bool) → (a && not (b || c)) ≡ true → b ≡ false
    good_id a b c m = ground arith

first_valid-word :
    (rs : List CallbackRequest) (id : Text)
    → first_valid rs ≡ some id
    → is_empty (trim_space id) ≡ false
first_valid-word [] id h = cc
first_valid-word (r ∷ rs) id h = elim (Option-cases (valid_id r)) [
  | inl k ↦ first_valid-word rs id (rw k at h)
  | inr (first, k) ↦ let e = same first (rw k at h) in rw (← e) (valid_id-word r first k)
]
  where
    same : (first : Text) → some first ≡ some id → first ≡ id
    same first m = cc

module _ (lib : Library) (gw : Gateway) where
  abbrev exchange : Text → Request
  exchange id = get_request (codes "/remote/saml/auth_id?id=" ++ lib.query_escape id)

  -- No session is received while no id is valid. The first valid id is exchanged, and at most four
  -- local GETs follow.
  abbrev pub HasReceived : Option Text → List Request → Option (Sent (Unit {0})) → Type 0
  HasReceived none sent r = r ≡ none
  HasReceived (some id) sent r =
      (result : Sent (Unit {0})) × (r ≡ some result)
      × HasFollowed lib gw 4 (exchange id ∷ sent) result

  exchanged :
      (id : Text) (sent : List Request)
      → is_empty (trim_space id) ≡ false
      → HasFollowed lib gw 4 (exchange id ∷ sent) (authenticate_saml lib gw id sent)
  unfolding authenticate_saml complete_authentication request
  exchanged id sent h = rw h (
      followed-HasFollowed lib gw 4 (gw.answer sent (exchange id)) (exchange id ∷ sent) _
        (λ body. complete-HasFollowed lib gw 4 body (exchange id ∷ sent)))

  received :
      (slot : Slot) (sent : List Request)
      → ((id : Text) → slot ≡ some id → is_empty (trim_space id) ≡ false)
      → HasReceived slot sent (receive lib gw slot sent)
  received none sent h = refl
  received (some id) sent h =
      (authenticate_saml lib gw id sent, refl, exchanged id sent (h id refl))

  -- Whatever requests come to the callback listener: the id that is exchanged is the first that a
  -- GET of the root brings, trimmed, neither empty nor longer than 4096 bytes, and while there is
  -- none nothing is sent. After the exchange at most four local GETs follow. A success has the
  -- session cookie, and an error is that it is missing, or the error of a request.
  pub receive_session-callbacks :
      (rs : List CallbackRequest) (sent : List Request)
      → HasReceived (first_valid rs) sent (receive_session lib gw rs sent)
  unfolding receive_session
  receive_session-callbacks rs sent =
      rw (callbacks-slot none rs) (received (first_valid rs) sent (first_valid-word rs))
