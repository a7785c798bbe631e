-- ===== src/Fortinet/Client/Allocate/Runs.antt =====
-- How an allocation of internal/fortinet/client.go may run.
use fortivpn_go.Prelude.{◌≡◌, ◌≢◌, ◌⊎◌, none, some, List, ◌∷◌, Result, err, ok, Text}
use fortivpn_go.Network.{IpMode, auto, ipv4, ipv6, dual, other, Config, ModeError, for_ip_mode}
use fortivpn_go.Network.Modes.{Selects}
use fortivpn_go.Fortinet.Settings.Document.{parse_network_config}
use fortivpn_go.Fortinet.Settings.Elements.Sound.{IsParsed}
use fortivpn_go.Fortinet.Client.{
  Request, ClientError, bad_document, http_status, ip_mode_error, Library, Gateway, read_answer,
  Sent, get_request,
}
use fortivpn_go.Fortinet.Client.Allocate.{index_path, tunnel_path, dual_path, legacy_path}

abbrev pub index_request : Request
index_request = get_request index_path

abbrev pub tunnel_request : Request
tunnel_request = get_request tunnel_path

abbrev pub legacy_request : Request
legacy_request = get_request legacy_path

-- The document that is asked for first.
abbrev pub document_request : IpMode → Request
document_request ipv4 = legacy_request
document_request auto = get_request dual_path
document_request ipv6 = get_request dual_path
document_request dual = get_request dual_path
document_request (other t) = get_request dual_path

-- The legacy document is a second try, but not in the modes ipv4 and dual.
abbrev pub HasFallback : IpMode → Type 0
HasFallback ipv4 = ⊥
HasFallback dual = ⊥
HasFallback auto = Unit {0}
HasFallback ipv6 = Unit {0}
HasFallback (other t) = Unit {0}

module _ (lib : Library) (gw : Gateway) where
  -- What the gateway answers to a request after those before it.
  abbrev pub answer_to : List Request → Request → Result ClientError Text
  answer_to before q = read_answer (gw.answer before q)

  -- The index may be forbidden.
  abbrev pub HasIndex : List Request → Type 0
  HasIndex sent =
      ((body : Text) × (answer_to sent index_request ≡ ok body))
      ⊎ (answer_to sent index_request ≡ err (http_status 403))

  abbrev pub HasTunnel : List Request → Type 0
  HasTunnel sent =
      HasIndex sent × (body : Text) × (answer_to (index_request ∷ sent) tunnel_request ≡ ok body)

  -- The settings are the part for the mode of what this text, read as a document, says.
  abbrev pub IsReadFrom : IpMode → Text → Result ClientError Config → Type 0
  IsReadFrom mode body (ok d) =
      (c : Config) × (parse_network_config lib.net (lib.decode body) ≡ some c)
      × IsParsed c
      × Selects mode c d
  IsReadFrom mode body (err e) =
      ((e ≡ bad_document) × (parse_network_config lib.net (lib.decode body) ≡ none))
      ⊎ ((m : ModeError) × (c : Config) × (parse_network_config lib.net (lib.decode body) ≡ some c)
          × (for_ip_mode (some c) mode ≡ err m)
          × (e ≡ ip_mode_error m))

  -- The settings are read from the answer to this request.
  abbrev pub IsAnsweredBy : IpMode → List Request → Request → Result ClientError Config → Type 0
  IsAnsweredBy mode before q r =
      (body : Text) × (answer_to before q ≡ ok body) × IsReadFrom mode body r

  -- The runs of an allocation, by where it ends, with all that was sent.
  pub data HasAllocated (mode : IpMode) (sent : List Request) : Sent Config → Type 0 where
    no_index :
        (e : ClientError)
        → (answer_to sent index_request ≡ err e)
        → (e ≢ http_status 403)
        → HasAllocated mode sent (err e, index_request ∷ sent)
    no_tunnel :
        (e : ClientError)
        → HasIndex sent
        → (answer_to (index_request ∷ sent) tunnel_request ≡ err e)
        → HasAllocated mode sent (err e, tunnel_request ∷ index_request ∷ sent)
    no_document :
        (e : ClientError)
        → HasTunnel sent
        → (answer_to (tunnel_request ∷ index_request ∷ sent) (document_request mode) ≡ err e)
        → ¬ (HasFallback mode)
        → HasAllocated mode sent
            (err e, document_request mode ∷ tunnel_request ∷ index_request ∷ sent)
    by_document :
        (r : Result ClientError Config)
        → HasTunnel sent
        → IsAnsweredBy mode (tunnel_request ∷ index_request ∷ sent) (document_request mode) r
        → HasAllocated mode sent (r, document_request mode ∷ tunnel_request ∷ index_request ∷ sent)
    no_legacy :
        (e f : ClientError)
        → HasTunnel sent
        → (answer_to (tunnel_request ∷ index_request ∷ sent) (document_request mode) ≡ err f)
        → HasFallback mode
        → (answer_to (document_request mode ∷ tunnel_request ∷ index_request ∷ sent) legacy_request
            ≡ err e)
        → HasAllocated mode sent
            (err e, legacy_request ∷ document_request mode ∷ tunnel_request ∷ index_request ∷ sent)
    by_legacy :
        (r : Result ClientError Config) (f : ClientError)
        → HasTunnel sent
        → (answer_to (tunnel_request ∷ index_request ∷ sent) (document_request mode) ≡ err f)
        → HasFallback mode
        → IsAnsweredBy mode
            (document_request mode ∷ tunnel_request ∷ index_request ∷ sent)
            legacy_request
            r
        → HasAllocated mode sent
            (r, legacy_request ∷ document_request mode ∷ tunnel_request ∷ index_request ∷ sent)
