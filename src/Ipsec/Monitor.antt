-- ===== src/Ipsec/Monitor.antt =====
-- The loop of `Run` in internal/ipsec/backend.go, which watches an established session.
mod Examples
use fortivpn_go.Prelude.{
  ℕ, zero, suc, ◌+◌, ◌≡◌, refl, sym, ◌∙◌, ◌⊎◌, inl, inr, Bool, true, false, not, ◌||◌, Option, none,
  some, List, [], ◌∷◌, ◌++◌, arith, leb, if◌then◌else◌, Bool-cases, Result, err, ok, ◌>>=◌, ◌>>◌,
  Text,
}
use fortivpn_go.Netip.{AddrText}
use fortivpn_go.Ipsec.Options.{Options}
use fortivpn_go.Ipsec.Vici.{Message}
use fortivpn_go.Ipsec.Negotiated.{info}
use fortivpn_go.Ipsec.Negotiated.{InfoError, Info}

-- What a tick of the clock finds after the poll: the context canceled, its deadline over, the
-- connection closed, and the daemon's messages, or none for an error.
pub record Poll : Type 0 where
  pub canceled : Bool
  pub expired : Bool
  pub closed : Bool
  pub reply : Option (List Message)

-- The case of the `select` that a round takes; the relay's end is seen with whether the connection
-- is closed and the context canceled.
pub data Wake : Type 0 where
  context_done connection_closed : Wake
  transport_done : (closed canceled : Bool) → Wake
  tick : Poll → Wake

-- The returns before the loop counts a failure; `stopped` returns nil.
pub data Early : Type 0 where
  stopped transport_closed monitor_failed : Early

pub data End : Type 0 where
  early : Early → End
  session_lost : End

-- What a round does: it returns, or the session was seen in order, or not.
pub data Effect : Type 0 where
  returns : Early → Effect
  in_order out_of_order : Effect

module _ (net : AddrText) (o : Options) (relayed : Bool) (name : Text) where
  abbrev pub seen : Result InfoError Info → Effect
  seen (ok i) = in_order
  seen (err e) = out_of_order

  abbrev pub polled : Option (List Message) → Effect
  polled none = returns monitor_failed
  polled (some messages) = seen (info net o relayed name messages)

  unfoldable pub effect : Wake → Effect
  effect context_done = returns stopped
  effect connection_closed = returns stopped
  effect (transport_done closed canceled) =
      if closed || canceled then returns stopped else returns transport_closed
  effect (tick p) = if p.canceled || p.expired || p.closed then returns stopped else polled p.reply

  -- The loop, over the rounds that it makes; none while it still runs. The third failure in a row
  -- ends it.
  unfoldable pub monitor : ℕ → List Wake → Option End
  monitor failures [] = none
  monitor failures (w ∷ ws) =
      let reset = monitor 0 ws in
      let counted = monitor (suc failures) ws in
      elim (effect w) [
        | returns e ↦ some (early e)
        | in_order ↦ reset
        | out_of_order ↦ if leb 3 (suc failures) then some session_lost else counted
      ]

  -- The first rounds, `k` of them, see the session out of order.
  abbrev pub StartsBad : ℕ → List Wake → Type 0
  StartsBad zero ws = Unit {0}
  StartsBad (suc k) [] = ⊥
  StartsBad (suc k) (w ∷ ws) = (effect w ≡ out_of_order) × StartsBad k ws

  -- Three rounds in a row do.
  abbrev pub HasThree : List Wake → Type 0
  HasThree [] = ⊥
  HasThree (w ∷ ws) = StartsBad 3 (w ∷ ws) ⊎ HasThree ws

  step_back :
      (k : ℕ) (w : Wake) (ws : List Wake)
      → effect w ≡ out_of_order
      → StartsBad k ws ⊎ HasThree ws
      → StartsBad (suc k) (w ∷ ws) ⊎ HasThree (w ∷ ws)
  step_back k w ws e (inl s) = inl (e, s)
  step_back k w ws e (inr s) = inr (inr s)

  restart : (ws : List Wake) → StartsBad 3 ws ⊎ HasThree ws → HasThree ws
  restart [] (inl s) = s
  restart (w ∷ ws) (inl s) = inl s
  restart ws (inr s) = s

  below_three : (n k : ℕ) → n + suc (suc k) ≡ 3 → leb 3 (suc n) ≡ false
  below_three n k e = ground (arith, e)

  -- A round, given what holds of the rounds after it.
  lost_step :
      (n k : ℕ) (w : Wake) (ws : List Wake) (f : Effect)
      → ((m l : ℕ)
          → m + suc l ≡ 3
          → monitor m ws ≡ some session_lost
          → StartsBad (suc l) ws ⊎ HasThree ws)
      → effect w ≡ f
      → n + suc k ≡ 3
      → elim f [
        | returns e ↦ some (early e)
        | in_order ↦ monitor 0 ws
        | out_of_order ↦ if leb 3 (suc n) then some session_lost else monitor (suc n) ws
      ]
        ≡ some session_lost
      → StartsBad (suc k) (w ∷ ws) ⊎ HasThree (w ∷ ws)
  lost_step n k w ws (returns r) ih e s h = cc
  lost_step n k w ws in_order ih e s h = inr (inr (restart ws (ih 0 2 (omega arith) h)))
  lost_step n zero w ws out_of_order ih e s h = inl (e, tt)
  lost_step n (suc k) w ws out_of_order ih e s h =
      step_back (suc k) w ws e (ih (suc n) k (omega (arith, s)) (rw (below_three n k s) at h))

  -- With `suc k` more failures to go after `n`.
  lost-StartsBad :
      (n k : ℕ) (ws : List Wake)
      → n + suc k ≡ 3
      → monitor n ws ≡ some session_lost
      → StartsBad (suc k) ws ⊎ HasThree ws
  unfolding monitor
  lost-StartsBad n k [] e h = cc
  lost-StartsBad n k (w ∷ ws) e h =
      lost_step n k w ws (effect w) (λ m l e' h'. lost-StartsBad m l ws e' h') refl e h

  -- `Run` gives a session up as lost only after three polls in a row whose answer failed `info`.
  pub monitor-HasThree : (ws : List Wake) → monitor 0 ws ≡ some session_lost → HasThree ws
  monitor-HasThree ws h = restart ws (lost-StartsBad 0 2 ws (omega arith) h)

  bad_lost :
      (n k : ℕ) (ws : List Wake)
      → n + suc k ≡ 3
      → StartsBad (suc k) ws
      → monitor n ws ≡ some session_lost
  unfolding monitor
  bad_lost n k [] e h = elim h [ ]
  bad_lost n zero (w ∷ ws) e h = rw (h.0, e', monitor) refl
    where
      e' : leb 3 (suc n) ≡ true
      e' = ground (arith, e)
  bad_lost n (suc k) (w ∷ ws) e h =
      rw (h.0, below_three n k e, monitor) (bad_lost (suc n) k ws (omega (arith, e)) h.1)

  -- What a round makes of the results after it.
  abbrev after_round : ℕ → Effect → (ℕ → Option End) → Option End
  after_round n (returns e) go = some (early e)
  after_round n in_order go = go 0
  after_round n out_of_order go = if leb 3 (suc n) then some session_lost else go (suc n)

  monitor-after_round :
      (n : ℕ) (w : Wake) (ws : List Wake)
      → monitor n (w ∷ ws) ≡ after_round n (effect w) (λ m. monitor m ws)
  unfolding monitor
  monitor-after_round n w ws = same (effect w)
    where
      same :
          (f : Effect)
          → elim f [
            | returns e ↦ some (early e)
            | in_order ↦ monitor 0 ws
            | out_of_order ↦ if leb 3 (suc n) then some session_lost else monitor (suc n) ws
          ]
            ≡ after_round n f (λ m. monitor m ws)
      same (returns e) = refl
      same in_order = refl
      same out_of_order = refl

  round-forgets :
      (n : ℕ) (f : Effect) (go further : ℕ → Option End) (r : Option End)
      → ((m : ℕ) → go m ≡ none → further m ≡ r)
      → after_round n f go ≡ none
      → after_round n f further ≡ r
  round-forgets n (returns e) go further r ih h = cc
  round-forgets n in_order go further r ih h = ih 0 h
  round-forgets n out_of_order go further r ih h = elim (Bool-cases (leb 3 (suc n))) [
    | inl k ↦ absurd (given_none session_lost (rw k at h))
    | inr k ↦ rw k (ih (suc n) (rw k at h))
  ]
    where
      given_none : (e : End) → some e ≡ none → ⊥
      given_none e h = cc

  -- A round in order makes the loop forget the failures before it.
  monitor-forgets :
      (n : ℕ) (ws rest : List Wake) (w : Wake)
      → effect w ≡ in_order
      → monitor n ws ≡ none
      → monitor n (ws ++ (w ∷ rest)) ≡ monitor 0 rest
  monitor-forgets n [] rest w e h = monitor-after_round n w rest ∙ rw e refl
  monitor-forgets n (v ∷ ws) rest w e h =
      monitor-after_round n v (ws ++ (w ∷ rest))
      ∙ round-forgets n (effect v) (λ m. monitor m ws) (λ m. monitor m (ws ++ (w ∷ rest)))
          (monitor 0 rest) (λ m k. monitor-forgets m ws rest w e k)
          (sym (monitor-after_round n v ws) ∙ h)

  two_left :
      (a b : Wake)
      → effect a ≡ out_of_order
      → effect b ≡ out_of_order
      → monitor 0 (a ∷ b ∷ []) ≡ none
  unfolding monitor
  two_left a b ha hb =
      monitor-after_round 0 a (b ∷ []) ∙ rw ha (monitor-after_round 1 b [] ∙ rw hb refl)

  -- A round that sees the session in order resets the count: whatever failures the loop survived
  -- before it, two polls whose answer fails `info` leave it running after that round, and a third
  -- in a row ends `Run` with the session lost, whatever comes next.
  pub monitor_lost :
      (ws rest : List Wake) (w a b c : Wake)
      → monitor 0 ws ≡ none
      → effect w ≡ in_order
      → effect a ≡ out_of_order
      → effect b ≡ out_of_order
      → effect c ≡ out_of_order
      → (monitor 0 (ws ++ (w ∷ a ∷ b ∷ [])) ≡ none)
        × (monitor 0 (ws ++ (w ∷ a ∷ b ∷ c ∷ rest)) ≡ some session_lost)
  monitor_lost ws rest w a b c h e ha hb hc = (
    monitor-forgets 0 ws (a ∷ b ∷ []) w e h ∙ two_left a b ha hb,
    monitor-forgets 0 ws (a ∷ b ∷ c ∷ rest) w e h
        ∙ bad_lost 0 2 (a ∷ b ∷ c ∷ rest) (omega arith) (ha, (hb, (hc, tt))),
  )
