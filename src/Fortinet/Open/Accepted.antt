-- ===== src/Fortinet/Open/Accepted.antt =====
-- When `OpenTunnel2` of internal/fortinet/tunnel.go takes an endpoint for a tunnel, and what it
-- leaves open.
use fortivpn_go.Prelude.{
  ℕ, ◌≡◌, ◌⊎◌, true, false, Option, some, List, [], ◌∷◌, take, err, ok, Text, codes,
}
use fortivpn_go.Fortinet.Client.{is_success}
use fortivpn_go.Netip.{Addr}
use fortivpn_go.Fortinet.Open.{
  OpenError, http_rejected, Following, timeout, Opening, OpenEffect, dialed, closed, written,
  Dialing, http_prefix, Opened, dns_query,
}

-- The gateway says nothing, or something that is not HTTP, and it does not close the connection
-- before that is known.
abbrev pub IsSilentOrBinary : Opening → Type 0
IsSilentOrBinary o = (¬ (take 5 o.bytes ≡ http_prefix)) × ((o.bytes ≡ []) → o.following ≡ timeout)

abbrev pub IsRejected : Option ℕ → OpenError → Type 0
IsRejected response (http_rejected s) = (response ≡ some s) × (is_success s ≡ false)
IsRejected response e = Unit {0}

abbrev pub AwaitOutcome : Opening → Option ℕ → Opened → Type 0
AwaitOutcome o response (ok u) = IsSilentOrBinary o
AwaitOutcome o response (err e) = IsRejected response e

abbrev arrived : List ℕ → Following → Opening
arrived s f = record { bytes = s; following = f }

module _ (response : Option ℕ) (c : ℕ) (s : List ℕ) (f : Following) where
  abbrev begun : Opening
  begun = arrived (c ∷ s) f

module _ (net : Dialing) (dns : List Addr) where
  -- Each connection that was dialed was closed, and nothing else was.
  abbrev IsHungUp : List OpenEffect → Type 0
  IsHungUp done =
      (done ≡ [])
      ⊎ (done ≡ dialed ∷ closed ∷ [])
      ⊎ ((q : List (Text × Text)) × (h : Text) × (done ≡ dialed ∷ written q h ∷ closed ∷ []))

  -- A success has the session cookie and one connection, over which the request was written with
  -- the valid DNS servers.
  abbrev pub HasOpened : Opened × List OpenEffect → Type 0
  HasOpened (ok u, done) =
      (net.has_cookie ≡ true)
      × IsSilentOrBinary net.opening
      × ((uuid : Text) × (hostname : Text) × (done
            ≡ dialed ∷ written ((codes "uuid", uuid) ∷ dns_query net 0 dns) hostname ∷ []))
  HasOpened (err e, done) = IsHungUp done × IsRejected net.response e
