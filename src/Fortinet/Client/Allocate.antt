-- ===== src/Fortinet/Client/Allocate.antt =====
-- `NetworkConfigForIPMode` of internal/fortinet/client.go: the allocation, and what is read of it.
pub mod Runs
pub mod Selected
use fortivpn_go.Prelude.{
  Bool, true, false, ◌||◌, Option, none, some, List, [], ◌==◌, if◌then◌else◌, Result, err, ok, Text,
  codes,
}
use fortivpn_go.Network.{IpMode, ipv4, dual, Config, ModeError, for_ip_mode}
use fortivpn_go.Fortinet.Settings.Document.{parse_network_config}
use fortivpn_go.Fortinet.Client.{
  Request, ClientError, bad_document, http_status, ip_mode_error, Library, Gateway, Sent,
  get_request, request, followed,
}

abbrev pub index_path : Text
index_path = codes "/remote/index"

abbrev pub tunnel_path : Text
tunnel_path = codes "/remote/fortisslvpn"

abbrev pub dual_path : Text
dual_path = codes "/remote/fortisslvpn_xml?dual_stack=1"

abbrev pub legacy_path : Text
legacy_path = codes "/remote/fortisslvpn_xml"

abbrev pub is_ipv4_mode : IpMode → Bool
is_ipv4_mode ipv4 = true
is_ipv4_mode m = false

abbrev pub is_dual_mode : IpMode → Bool
is_dual_mode dual = true
is_dual_mode m = false

abbrev pub xml_path : IpMode → Text
xml_path mode = if is_ipv4_mode mode then legacy_path else dual_path

-- A portal may forbid its index and still allocate a tunnel.
abbrev pub tolerate : Result ClientError Text → Result ClientError Text
tolerate (ok body) = ok body
tolerate (err (http_status s)) = if s == 403 then ok [] else err (http_status s)
tolerate (err e) = err e

abbrev pub or_mode_error : Result ModeError Config → Result ClientError Config
or_mode_error (ok c) = ok c
or_mode_error (err e) = err (ip_mode_error e)

module _ (lib : Library) (gw : Gateway) where
  abbrev pub restricted : IpMode → Option Config → Result ClientError Config
  restricted mode none = err bad_document
  restricted mode (some c) = or_mode_error (for_ip_mode (some c) mode)

  abbrev pub read_settings : IpMode → Text → List Request → Sent Config
  read_settings mode body sent =
      (restricted mode (parse_network_config lib.net (lib.decode body)), sent)

  -- The legacy allocation is tried after a failure, but neither for dual nor a second time.
  abbrev pub or_legacy : IpMode → Sent Text → Sent Text
  or_legacy mode (ok body, sent) = (ok body, sent)
  or_legacy mode (err e, sent) =
      if is_dual_mode mode || is_ipv4_mode mode
      then (err e, sent)
      else request lib gw (get_request legacy_path) sent

  unfoldable pub fetch_xml : IpMode → List Request → Sent Text
  unfolding request
  fetch_xml mode sent = or_legacy mode (request lib gw (get_request (xml_path mode)) sent)

  abbrev pub tolerated : Sent Text → Sent Text
  tolerated (r, sent) = (tolerate r, sent)

  unfoldable pub network_config_for_ip_mode : IpMode → List Request → Sent Config
  unfolding request fetch_xml
  network_config_for_ip_mode mode sent =
      followed lib gw (tolerated (request lib gw (get_request index_path) sent)) (λ index sent1.
        followed lib gw (request lib gw (get_request tunnel_path) sent1)
          (λ tunnel sent2. followed lib gw (fetch_xml mode sent2) (read_settings mode)))
