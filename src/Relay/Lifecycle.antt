-- ===== src/Relay/Lifecycle.antt =====
-- How a relay is opened and closed: `Dial`, `fail` and `Close` of relay.go.
use fortivpn_go.Prelude.{
  ℕ, suc, ◌+◌, ◌-◌, ◌≡◌, refl, ap, ◌∙◌, Bool, true, false, not, ◌||◌, Option, none, some, List, [],
  ◌∷◌, ◌++◌, arith, ◌==◌, if◌then◌else◌, Result, ok, err,
}
use fortivpn_go.Netip.{Addr, addr_is_valid, is4}
use fortivpn_go.Wire.{WriteError}

-- What `Dial` does to the world, in order.
pub data DialAction : Type 0 where
  connected sent_prefix close_tcp opened_udp started : DialAction

pub data DialError : Type 0 where
  invalid_endpoint connect_failed udp_refused : DialError
  prefix_failed : WriteError → DialError
  context_done : DialError

-- How the outside answers: the TCP connection, the write of the stream prefix, whether the context
-- ended before the watch on it was stopped, and the UDP socket.
pub record DialAnswers : Type 0 where
  pub tcp_connects : Bool
  pub prefix_written : Result WriteError (Unit {0})
  pub context_ended : Bool
  pub udp_opens : Bool

abbrev pub prefix_error : Result WriteError (Unit {0}) → Bool → Option DialError
prefix_error (err e) ended = some (prefix_failed e)
prefix_error (ok u) true = some context_done
prefix_error (ok u) false = none

abbrev pub dial_udp : Bool → List DialAction → Result DialError (Unit {0}) × List DialAction
dial_udp false done = (err udp_refused, done ++ (close_tcp ∷ []))
dial_udp true done = (ok tt, done ++ (opened_udp ∷ started ∷ []))

abbrev pub dial_checked :
    Option DialError → Bool → List DialAction → Result DialError (Unit {0}) × List DialAction
dial_checked (some e) udp done = (err e, done ++ (close_tcp ∷ []))
dial_checked none udp done = dial_udp udp done

-- `Dial`: the endpoint is an IPv4 address and a port, and the daemon's port is given.
unfoldable pub dial : Addr → ℕ → ℕ → DialAnswers → Result DialError (Unit {0}) × List DialAction
dial gateway port daemon_port answers =
    if not (addr_is_valid gateway) || not (is4 gateway) || port == 0 || daemon_port == 0
    then (err invalid_endpoint, [])
    else if answers.tcp_connects
    then dial_checked (prefix_error answers.prefix_written answers.context_ended) answers.udp_opens
        (connected ∷ sent_prefix ∷ [])
    else (err connect_failed, [])

-- The TCP connections that were opened, less those that were closed again.
unfoldable pub open_connections : List DialAction → ℕ → ℕ
open_connections [] n = n
open_connections (connected ∷ rest) n = open_connections rest (suc n)
open_connections (close_tcp ∷ rest) n = open_connections rest (n - 1)
open_connections (a ∷ rest) n = open_connections rest n

-- The TCP connections that a caller of `Dial` holds.
abbrev pub held : Result DialError (Unit {0}) → ℕ
held (ok u) = 1
held (err e) = 0

-- After a successful `Dial` one TCP connection is open, the relay's; after a failed one none is,
-- whichever step it was that failed.
pub dial-open_connections :
    (gateway : Addr) (port daemon_port : ℕ) (answers : DialAnswers)
    → open_connections (dial gateway port daemon_port answers).1 0
      ≡ held (dial gateway port daemon_port answers).0
unfolding dial open_connections
dial-open_connections gateway port daemon_port answers = ground arith

-- The relay: `done` is its closed channel, and the counters are the calls of `Close` on its two
-- sockets.
pub record Relay : Type 0 where
  pub once_done : Bool
  pub error : Option ℕ
  pub done : Bool
  pub tcp_closes : ℕ
  pub udp_closes : ℕ

abbrev pub new_relay : Relay
new_relay = record { once_done = false; error = none; done = false; tcp_closes = 0; udp_closes = 0 }

-- `fail`, with the error as a number; `Close` is `fail` with no error.
unfoldable pub fail : Option ℕ → Relay → Relay
fail e r = if r.once_done then r else record {
  once_done = true;
  error = e;
  done = true;
  tcp_closes = r.tcp_closes + 1;
  udp_closes = r.udp_closes + 1;
}

unfoldable pub fail_all : List (Option ℕ) → Relay → Relay
fail_all [] r = r
fail_all (e ∷ es) r = fail_all es (fail e r)

fail_done : (e : Option ℕ) (r : Relay) → r.once_done ≡ true → fail e r ≡ r
unfolding fail
fail_done e r h = ground arith

fail_all_done : (es : List (Option ℕ)) (r : Relay) → r.once_done ≡ true → fail_all es r ≡ r
unfolding fail_all fail
fail_all_done [] r h = refl
fail_all_done (e ∷ es) r h = ap (fail_all es) (fail_done e r h) ∙ fail_all_done es r h

-- However the two loops and the callers of `Close` interleave, the first call decides: its error
-- stays, the done channel is closed, and each socket is closed exactly once.
pub fail_all_first :
    (e : Option ℕ) (es : List (Option ℕ))
    → fail_all (e ∷ es) new_relay
      ≡ record { once_done = true; error = e; done = true; tcp_closes = 1; udp_closes = 1 }
unfolding fail_all fail
fail_all_first e es = fail_all_done es _ refl
