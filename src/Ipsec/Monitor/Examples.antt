-- ===== src/Ipsec/Monitor/Examples.antt =====
-- A session that the daemon reports and then no longer, and the theorems at it.
use fortivpn_go.Prelude.{◌≡◌, refl, true, false, none, some, List, [], ◌∷◌, ◌++◌, Text, codes}
use fortivpn_go.Ipsec.Vici.{Message}
use fortivpn_go.Ipsec.Negotiated.{info}
use fortivpn_go.Ipsec.Negotiated.Demo.{demo, filled, report, info_negotiated}
use fortivpn_go.Ipsec.Monitor.{
  Wake, tick, session_lost, in_order, out_of_order, effect, monitor, HasThree, monitor-HasThree,
  monitor_lost,
}

abbrev name : Text
name = codes "s"

abbrev polled_with : List Message → Wake
polled_with messages =
    tick (record { canceled = false; expired = false; closed = false; reply = some messages })

abbrev gone : Wake
gone = polled_with []

gone_bad : effect demo filled true name gone ≡ out_of_order
unfolding effect info
gone_bad = refl

reported_in_order : effect demo filled true name (polled_with report) ≡ in_order
unfolding effect
reported_in_order = rw info_negotiated refl

abbrev three : List Wake
three = gone ∷ gone ∷ gone ∷ []

lost_gone : monitor demo filled true name 0 three ≡ some session_lost
unfolding monitor effect info
lost_gone = refl

two_gone : monitor demo filled true name 0 (gone ∷ gone ∷ []) ≡ none
unfolding monitor effect info
two_gone = refl

monitor-HasThree_example : HasThree demo filled true name three
monitor-HasThree_example = monitor-HasThree demo filled true name three lost_gone

-- Two failures, a round in order, and two failures again.
monitor_lost_example :
    (monitor demo filled true name 0 ((gone ∷ gone ∷ []) ++ (polled_with report ∷ gone ∷ gone ∷ []))
      ≡ none)
    × (monitor demo filled true name 0 ((gone ∷ gone ∷ []) ++ (polled_with report ∷ three))
        ≡ some session_lost)
monitor_lost_example =
    monitor_lost demo filled true name (gone ∷ gone ∷ []) [] (polled_with report) gone gone gone
      two_gone reported_in_order gone_bad gone_bad gone_bad
