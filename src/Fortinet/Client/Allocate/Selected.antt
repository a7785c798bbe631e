-- ===== src/Fortinet/Client/Allocate/Selected.antt =====
-- What an allocation of internal/fortinet/client.go asks for and gives.
use fortivpn_go.Prelude.{
  ◌≡◌, refl, ap, ◌≢◌, ◌⊎◌, inl, inr, true, false, ◌||◌, Option, none, some, List, [], ◌∷◌, arith,
  ◌==◌, Bool-cases, Result, err, ok, Text,
}
use fortivpn_go.Network.{IpMode, auto, ipv4, ipv6, dual, other, Config, ModeError, for_ip_mode}
use fortivpn_go.Network.Modes.{for_ip_mode-Selects}
use fortivpn_go.Fortinet.Settings.Document.{parse_network_config}
use fortivpn_go.Fortinet.Settings.Document.Sound.{parse_network_config-IsParsed}
use fortivpn_go.Fortinet.Client.{
  Request, ClientError, not_sent, body_lost, empty_session_id, empty_credentials,
  session_cookie_missing, invalid_password, bad_document, http_status, ip_mode_error, Library,
  Gateway, Sent, get_request, request, followed,
}
use fortivpn_go.Fortinet.Client.Allocate.{
  is_ipv4_mode, is_dual_mode, xml_path, tolerate, or_mode_error, restricted, read_settings,
  or_legacy, fetch_xml, network_config_for_ip_mode,
}
use fortivpn_go.Fortinet.Client.Allocate.Runs.{
  index_request, tunnel_request, legacy_request, document_request, HasFallback, answer_to, HasIndex,
  HasTunnel, IsReadFrom, HasAllocated, no_index, no_tunnel, no_document, by_document, no_legacy,
  by_legacy,
}

tolerate-cases :
    (f : ClientError)
    → ((tolerate (err f) ≡ ok []) × (f ≡ http_status 403))
      ⊎ ((tolerate (err f) ≡ err f) × (f ≢ http_status 403))
tolerate-cases (http_status s) = elim (Bool-cases (s == 403)) [
  | inl h ↦ inl (rw h refl, ap http_status (ground (arith, h)))
  | inr h ↦ inr (rw h refl, λ e. let k : s ≡ 403 = cc in ground (arith, h, k))
]
tolerate-cases not_sent = inr (refl, λ e. cc)
tolerate-cases body_lost = inr (refl, λ e. cc)
tolerate-cases empty_session_id = inr (refl, λ e. cc)
tolerate-cases empty_credentials = inr (refl, λ e. cc)
tolerate-cases session_cookie_missing = inr (refl, λ e. cc)
tolerate-cases invalid_password = inr (refl, λ e. cc)
tolerate-cases bad_document = inr (refl, λ e. cc)
tolerate-cases (ip_mode_error m) = inr (refl, λ e. cc)

module _ (lib : Library) (gw : Gateway) where
  parsed-IsReadFrom :
      (mode : IpMode) (body : Text) (c : Config) (r : Result ModeError Config)
      → parse_network_config lib.net (lib.decode body) ≡ some c
      → for_ip_mode (some c) mode ≡ r
      → IsReadFrom lib gw mode body (or_mode_error r)
  parsed-IsReadFrom mode body c (ok d) p h = (
    c,
    p,
    parse_network_config-IsParsed lib.net (lib.decode body) c p,
    for_ip_mode-Selects mode c d h,
  )
  parsed-IsReadFrom mode body c (err e) p h = inr (e, c, p, h, refl)

  restricted-IsReadFrom :
      (mode : IpMode) (body : Text) (p : Option Config)
      → parse_network_config lib.net (lib.decode body) ≡ p
      → IsReadFrom lib gw mode body (restricted lib gw mode p)
  restricted-IsReadFrom mode body none h = inl (refl, h)
  restricted-IsReadFrom mode body (some c) h =
      parsed-IsReadFrom mode body c (for_ip_mode (some c) mode) h refl

  document_request-xml_path : (mode : IpMode) → get_request (xml_path mode) ≡ document_request mode
  document_request-xml_path auto = refl
  document_request-xml_path ipv4 = refl
  document_request-xml_path ipv6 = refl
  document_request-xml_path dual = refl
  document_request-xml_path (other t) = refl

  fallback-cases :
      (mode : IpMode)
      → (((is_dual_mode mode || is_ipv4_mode mode) ≡ true) × (¬ (HasFallback mode)))
        ⊎ (((is_dual_mode mode || is_ipv4_mode mode) ≡ false) × HasFallback mode)
  fallback-cases auto = inr (refl, tt)
  fallback-cases ipv4 = inl (refl, λ x. x)
  fallback-cases ipv6 = inr (refl, tt)
  fallback-cases dual = inl (refl, λ x. x)
  fallback-cases (other t) = inr (refl, tt)

  module _ (mode : IpMode) (sent : List Request) where
    abbrev Allocated : Sent Config → Type 0
    Allocated = HasAllocated lib gw mode sent

    abbrev before_document : List Request
    before_document = tunnel_request ∷ index_request ∷ sent

    abbrev with_document : List Request
    with_document = document_request mode ∷ before_document

    legacy-Allocated :
        (f : ClientError) (a : Result ClientError Text)
        → HasTunnel lib gw sent
        → answer_to lib gw before_document (document_request mode) ≡ err f
        → HasFallback mode
        → answer_to lib gw with_document legacy_request ≡ a
        → Allocated
            (followed lib gw (a, legacy_request ∷ with_document) (read_settings lib gw mode))
    legacy-Allocated f (ok body) h k m e =
        by_legacy _ f h k m (body, e, restricted-IsReadFrom mode body _ refl)
    legacy-Allocated f (err g) h k m e = no_legacy g f h k m e

    document-Allocated :
        (a : Result ClientError Text)
        → HasTunnel lib gw sent
        → answer_to lib gw before_document (document_request mode) ≡ a
        → Allocated
            (followed lib gw (or_legacy lib gw mode (a, with_document)) (read_settings lib gw mode))
    unfolding request
    document-Allocated (ok body) h e =
        by_document _ h (body, e, restricted-IsReadFrom mode body _ refl)
    document-Allocated (err f) h e = elim (fallback-cases mode) [
      | inl (k, n) ↦ rw k (no_document f h e n)
      | inr (k, m) ↦ rw k (legacy-Allocated f _ h e m refl)
    ]

    fetched-Allocated :
        HasTunnel lib gw sent
        → Allocated
            (followed lib gw (fetch_xml lib gw mode before_document) (read_settings lib gw mode))
    unfolding fetch_xml request
    fetched-Allocated h = rw (document_request-xml_path mode) (document-Allocated _ h refl)

    tunnel-Allocated :
        (a : Result ClientError Text)
        → HasIndex lib gw sent
        → answer_to lib gw (index_request ∷ sent) tunnel_request ≡ a
        → Allocated (
            followed lib gw
              (a, before_document)
              (λ tunnel sent2.
                followed lib gw (fetch_xml lib gw mode sent2) (read_settings lib gw mode)))
    tunnel-Allocated (ok body) h e = fetched-Allocated (h, body, e)
    tunnel-Allocated (err f) h e = no_tunnel f h e

    index-Allocated :
        (a : Result ClientError Text)
        → answer_to lib gw sent index_request ≡ a
        → Allocated (
            followed lib gw
              (tolerate a, index_request ∷ sent)
              (λ index sent1. followed lib gw (request lib gw tunnel_request sent1) (λ tunnel sent2.
                followed lib gw (fetch_xml lib gw mode sent2) (read_settings lib gw mode))))
    unfolding request
    index-Allocated (ok body) e = tunnel-Allocated _ (inl (body, e)) refl
    index-Allocated (err f) e = elim (tolerate-cases f) [
      | inl (k, m) ↦ rw k (tunnel-Allocated _ (inr (rw m at e)) refl)
      | inr (k, n) ↦ rw k (no_index f e n)
    ]

  -- An allocation asks for the index, for the tunnel and for the document of the mode, each only
  -- after an answer to the one before, though the index may be forbidden; and when there is no
  -- document, outside of the modes ipv4 and dual, for the legacy document. Its error is the one of
  -- the answer at which it ends. When there are settings they are the part for the mode of what the
  -- answered document says, and this repeats nothing and keeps the families apart.
  pub network_config-HasAllocated :
      (mode : IpMode) (sent : List Request)
      → HasAllocated lib gw mode sent (network_config_for_ip_mode lib gw mode sent)
  unfolding network_config_for_ip_mode request
  network_config-HasAllocated mode sent = index-Allocated mode sent _ refl
