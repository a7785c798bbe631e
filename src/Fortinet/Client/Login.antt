-- ===== src/Fortinet/Client/Login.antt =====
-- What `completeAuthentication` and `AuthenticatePassword` of internal/fortinet/client.go send,
-- and what their results mean.
use mathlib.Core.List.{append_assoc}
use fortivpn_go.Prelude.{
  ℕ, zero, suc, ◌≤◌, ◌≡◌, refl, sym, ap, ◌∙◌, ◌⊎◌, inl, inr, Bool, true, false, not, ◌&&◌, Option,
  none, some, List, [], ◌∷◌, ◌++◌, arith, if◌then◌else◌, Bool-cases, Option-cases, length, take,
  All, length-append, All-append, Result, err, ok, Result-cases, Text, codes, is_empty, trim_space,
  has_prefix,
}
use fortivpn_go.Fortinet.Client.{
  Request, Answer, unanswered, answered, broken_body, ClientError, not_sent, body_lost,
  session_cookie_missing, invalid_password, http_status, Reference, Library, Gateway, max_body,
  is_success, read_answer, is_local, local_uri, Sent, get_request, redirect_value,
  auth_redirect_path, has_session_cookie, request, final_check, followed, complete,
  complete_authentication, login_form, refused_login, refused_session, map_error,
  authenticate_password,
}

-- The errors of a request itself.
abbrev pub IsRequestError : ClientError → Type 0
IsRequestError e = (e ≡ not_sent) ⊎ (e ≡ body_lost) ⊎ ((s : ℕ) × (e ≡ http_status s))

-- The error of an answer is its status, unless that is a success.
status_or :
    (b : Bool) (m : Result ClientError Text) (s : ℕ) (e : ClientError)
    → (if b then m else err (http_status s)) ≡ err e
    → (m ≡ err e) ⊎ (e ≡ http_status s)
status_or true m s e h = inl h
status_or false m s e h = inr cc

read_answer-IsRequestError :
    (a : Answer) (e : ClientError) → read_answer a ≡ err e → IsRequestError e
unfolding read_answer
read_answer-IsRequestError unanswered e h = inl cc
read_answer-IsRequestError (answered s body) e h =
    elim (status_or (is_success s) (ok (take max_body body)) s e h) [
      | inl k ↦ inl cc
      | inr k ↦ inr (inr (s, k))
    ]
read_answer-IsRequestError (broken_body s body) e h =
    elim (status_or (is_success s) (err body_lost) s e h) [
      | inl k ↦ inr (inl cc)
      | inr k ↦ inr (inr (s, k))
    ]

-- A GET without a form, of a reference below /remote/ that names no other host.
pub record IsLocalGet (r : Request) : Type 0 where
  pub reference : Reference
  pub relative : reference.is_abs ≡ false
  pub no_host : is_empty reference.host ≡ true
  pub below : has_prefix (codes "/remote/") reference.path ≡ true
  pub same : r ≡ get_request reference.request_uri

module _ (lib : Library) (gw : Gateway) where
  -- A success has the session cookie, a missing cookie is missing, and all else failed to be sent.
  abbrev pub HasOutcome : Sent (Unit {0}) → Type 0
  HasOutcome (ok u, sent) = has_session_cookie lib gw sent ≡ true
  HasOutcome (err e, sent) =
      ((e ≡ session_cookie_missing) × (has_session_cookie lib gw sent ≡ false)) ⊎ IsRequestError e

  -- After `sent`, at most `n` requests followed, each a local GET.
  abbrev pub HasFollowed : ℕ → List Request → Sent (Unit {0}) → Type 0
  HasFollowed n sent r =
      (later : List Request) × (r.1 ≡ later ++ sent)
      × (length later ≤ n)
      × All IsLocalGet later
      × HasOutcome r

  local_uri-IsLocalGet :
      (r : Option Reference) (p : Text) → local_uri r ≡ some p → IsLocalGet (get_request p)
  local_uri-IsLocalGet none p h = cc
  local_uri-IsLocalGet (some r) p h = elim (Bool-cases (is_local r)) [
    | inl l ↦
        let (a, b, c) =
          all_three r.is_abs (is_empty r.host) (has_prefix (codes "/remote/") r.path) l in
        record {
          reference = r;
          relative = a;
          no_host = b;
          below = c;
          same = ap get_request (sym (uri-same r p l h));
        }
    | inr l ↦ let k = rw l at h in cc
  ]
    where
      all_three : (a b c : Bool) → (not a && b && c) ≡ true → (a ≡ false) × (b ≡ true) × (c ≡ true)
      all_three a b c m = ground arith

      uri-same :
          (r : Reference) (p : Text)
          → is_local r ≡ true
          → (if is_local r then some r.request_uri else none) ≡ some p
          → r.request_uri ≡ p
      uri-same r p l h = let k = rw l at h in cc

  redirect_value-IsLocalGet :
      (v : Option Text) (p : Text) → redirect_value lib gw v ≡ some p → IsLocalGet (get_request p)
  redirect_value-IsLocalGet none p h = cc
  redirect_value-IsLocalGet (some v) p h = local_uri-IsLocalGet _ p h

  auth_redirect_path-IsLocalGet :
      (body p : Text) → auth_redirect_path lib gw body ≡ some p → IsLocalGet (get_request p)
  unfolding auth_redirect_path
  auth_redirect_path-IsLocalGet body p h = redirect_value-IsLocalGet _ p h

  final_check-HasOutcome : (sent : List Request) → HasOutcome (final_check lib gw sent)
  final_check-HasOutcome sent = elim (Bool-cases (has_session_cookie lib gw sent)) [
    | inl h ↦ rw h h
    | inr h ↦ rw h (inl (refl, h))
  ]

  stay-HasFollowed :
      (n : ℕ) (sent : List Request) (r : Result ClientError (Unit {0}))
      → HasOutcome (r, sent)
      → HasFollowed n sent (r, sent)
  stay-HasFollowed n sent r h = ([], refl, omega arith, tt, h)

  -- One request before the others.
  more-HasFollowed :
      (n : ℕ) (q : Request) (sent : List Request) (r : Sent (Unit {0}))
      → IsLocalGet q
      → HasFollowed n (q ∷ sent) r
      → HasFollowed (suc n) sent r
  more-HasFollowed n q sent r l (later, e, k, a, h) = (
    later ++ (q ∷ []),
    e ∙ sym (append_assoc later (q ∷ []) sent),
    omega (arith, k, length-append later (q ∷ [])),
    All-append IsLocalGet later (q ∷ []) a (l, tt),
    h,
  )

  pub followed-HasFollowed :
      (n : ℕ) (a : Answer) (sent : List Request) (next : Text → List Request → Sent (Unit {0}))
      → ((body : Text) → HasFollowed n sent (next body sent))
      → HasFollowed n sent (followed lib gw (read_answer a, sent) next)
  followed-HasFollowed n a sent next h = elim (Result-cases (read_answer a)) [
    | inl (body, e) ↦ rw e (h body)
    | inr (x, e) ↦ rw e (stay-HasFollowed n sent (err x) (inr (read_answer-IsRequestError a x e)))
  ]

  -- `completeAuthentication` sends at most `n` further requests in `n` rounds.
  pub complete-HasFollowed :
      (n : ℕ) (response : Text) (sent : List Request)
      → HasFollowed n sent (complete lib gw n response sent)
  unfolding complete request
  complete-HasFollowed zero response sent =
      stay-HasFollowed zero sent _ (final_check-HasOutcome sent)
  complete-HasFollowed (suc n) response sent = elim (Bool-cases (has_session_cookie lib gw sent)) [
    | inl h ↦ rw h (stay-HasFollowed (suc n) sent (ok tt) h)
    | inr h ↦ elim (Option-cases (auth_redirect_path lib gw response)) [
      | inl e ↦ rw (h, e) (stay-HasFollowed (suc n) sent _ (final_check-HasOutcome sent))
      | inr (p, e) ↦
          rw (h, e)
            (more-HasFollowed n (get_request p) sent _ (auth_redirect_path-IsLocalGet response p e)
              (followed-HasFollowed n (gw.answer sent (get_request p)) (get_request p ∷ sent)
                (λ body sent'. complete lib gw n body sent')
                (λ body. complete-HasFollowed n body (get_request p ∷ sent))))
    ]
  ]

  -- What a password login says: a success has the session cookie; an invalid password means that
  -- the gateway refused the form with 401 or 403, or gave no session cookie in the end; and all
  -- else is the error of a request.
  abbrev pub LoginOutcome : List Request → Request → Sent (Unit {0}) → Type 0
  LoginOutcome sent login (ok u, all_sent) = has_session_cookie lib gw all_sent ≡ true
  LoginOutcome sent login (err e, all_sent) =
      ((e ≡ invalid_password)
        × ((has_session_cookie lib gw all_sent ≡ false)
            ⊎ (read_answer (gw.answer sent login) ≡ err (http_status 401))
            ⊎ (read_answer (gw.answer sent login) ≡ err (http_status 403))))
      ⊎ IsRequestError e

  -- After the form, at most four requests, each a local GET.
  abbrev pub HasLoggedIn : List Request → Request → Sent (Unit {0}) → Type 0
  HasLoggedIn sent login r =
      (later : List Request) × (r.1 ≡ later ++ (login ∷ sent))
      × (length later ≤ 4)
      × All IsLocalGet later
      × LoginOutcome sent login r

  refused_session-outcome :
      (sent : List Request) (login : Request) (r : Sent (Unit {0}))
      → HasOutcome r
      → LoginOutcome sent login (map_error lib gw (refused_session lib gw) r)
  refused_session-outcome sent login (ok u, s) h = h
  refused_session-outcome sent login (err e, s) (inl (m, c)) = inl (rw m refl, inl c)
  refused_session-outcome sent login (err e, s) (inr (inl m)) = inr (inl (rw m refl))
  refused_session-outcome sent login (err e, s) (inr (inr (inl m))) = inr (inr (inl (rw m refl)))
  refused_session-outcome sent login (err e, s) (inr (inr (inr (n, m)))) =
      inr (inr (inr (n, rw m refl)))

  map_error-sent :
      (f : ClientError → ClientError) (r : Sent (Unit {0})) → (map_error lib gw f r).1 ≡ r.1
  map_error-sent f (ok u, s) = refl
  map_error-sent f (err e, s) = refl

  refused_login-status :
      (s : ℕ) → (s ≡ 401) ⊎ (s ≡ 403) ⊎ (refused_login lib gw (http_status s) ≡ http_status s)
  refused_login-status s = ground arith

  refused_login-outcome :
      (sent : List Request) (login : Request) (e : ClientError)
      → read_answer (gw.answer sent login) ≡ err e
      → IsRequestError e
      → LoginOutcome sent login (err (refused_login lib gw e), login ∷ sent)
  refused_login-outcome sent login e h (inl m) = inr (inl (rw m refl))
  refused_login-outcome sent login e h (inr (inl m)) = inr (inr (inl (rw m refl)))
  refused_login-outcome sent login e h (inr (inr (s, m))) = elim (refused_login-status s) [
    | inl k ↦ inl (rw (m, k) refl, inr (inl (h ∙ rw (m, k) refl)))
    | inr (inl k) ↦ inl (rw (m, k) refl, inr (inr (h ∙ rw (m, k) refl)))
    | inr (inr k) ↦ inr (inr (inr (s, rw m k)))
  ]

  -- With a username that is not blank and a password: the form with the credentials is posted once,
  -- and then at most four requests follow, each a GET of a reference below /remote/ that names no
  -- other host. A success has the session cookie; an invalid password means that the gateway
  -- answered the form with 401 or 403, or set no session cookie in the end; and every other error
  -- is the error of a request.
  pub authenticate_password-HasLoggedIn :
      (username password realm : Text) (sent : List Request)
      → is_empty (trim_space username) ≡ false
      → is_empty password ≡ false
      → HasLoggedIn sent
          (login_form lib gw username password realm)
          (authenticate_password lib gw username password realm sent)
  unfolding authenticate_password complete_authentication request
  authenticate_password-HasLoggedIn username password realm sent u p =
      let login = login_form lib gw username password realm in
      elim (Result-cases (read_answer (gw.answer sent login))) [
        | inl (body, e) ↦
            let (later, s, k, a, h) = complete-HasFollowed 4 body (login ∷ sent) in
            let r = complete lib gw 4 body (login ∷ sent) in
            rw (u, p, e)
              (
                later,
                map_error-sent (refused_session lib gw) r ∙ s,
                k,
                a,
                refused_session-outcome sent login r h,
              )
        | inr (x, e) ↦
            rw (u, p, e)
              (
                [],
                refl,
                omega arith,
                tt,
                refused_login-outcome sent login x e
                    (read_answer-IsRequestError (gw.answer sent login) x e),
              )
      ]
