-- ===== src/Relay/Examples.antt =====
-- Runs of the relay, and its theorems at small inputs.
use fortivpn_go.Prelude.{ℕ, ◌≡◌, refl, true, false, none, some, List, [], ◌∷◌, arith, err, ok}
use fortivpn_go.Netip.{v4}
use fortivpn_go.Wire.{put_u16, eof, WriteOutcome, wrote}
use fortivpn_go.Wire.Writes.{IsSteady}
use fortivpn_go.Relay.{
  record_io, invalid_payload, record_bytes, write_record, is_keepalive, outbound, inbound,
}
use fortivpn_go.Relay.RoundTrip.{carried, inbound-outbound}
use fortivpn_go.Relay.Lifecycle.{
  DialAnswers, dial, open_connections, held, dial-open_connections, new_relay, fail_all,
  fail_all_first,
}

record_bytes_seven : record_bytes (7 ∷ []) ≡ 0 ∷ 3 ∷ 7 ∷ []
unfolding record_bytes put_u16
record_bytes_seven = refl

-- A connection that takes one byte at a time.
abbrev slow : ℕ → ℕ → WriteOutcome
slow n k = wrote 1

slow-IsSteady : (n : ℕ) → IsSteady (slow n)
slow-IsSteady n k h = (1, refl, omega arith, h)

abbrev datagrams : List (List ℕ)
datagrams = (1 ∷ 2 ∷ []) ∷ (0xff ∷ []) ∷ (3 ∷ []) ∷ []

carried-datagrams : carried datagrams ≡ (1 ∷ 2 ∷ []) ∷ (3 ∷ []) ∷ []
unfolding carried is_keepalive
carried-datagrams = refl

inbound-outbound_example :
    ((outbound slow datagrams).0 ≡ ok tt)
    × (inbound (λ _. true) (record { bytes = (outbound slow datagrams).1; final = eof })
        ≡ (record_io eof, carried datagrams))
inbound-outbound_example = inbound-outbound slow datagrams eof slow-IsSteady (omega arith)

-- An empty datagram is no keepalive, and ends the relay.
empty_datagram : outbound slow ([] ∷ []) ≡ (err invalid_payload, [])
unfolding outbound write_record is_keepalive
empty_datagram = refl

abbrev answers : DialAnswers
answers = record {
  tcp_connects = true;
  prefix_written = ok tt;
  context_ended = false;
  udp_opens = false;
}

dial-open_connections_example :
    open_connections (dial (v4 16909060) 4500 4500 answers).1 0
    ≡ held (dial (v4 16909060) 4500 4500 answers).0
dial-open_connections_example = dial-open_connections (v4 16909060) 4500 4500 answers

fail_all_first_example :
    fail_all (some 3 ∷ none ∷ some 4 ∷ []) new_relay
    ≡ record { once_done = true; error = some 3; done = true; tcp_closes = 1; udp_closes = 1 }
fail_all_first_example = fail_all_first (some 3) (none ∷ some 4 ∷ [])
