-- ===== src/Ipsec/Negotiated/Examples.antt =====
-- The theorems at the session of Ipsec/Negotiated/Demo.
use fortivpn_go.Prelude.{◌≡◌, refl, true, ok, codes, text_eq, byte_len}
use fortivpn_go.Netip.{is_multicast}
use fortivpn_go.Ipsec.Options.{is_invalid_value, validate, new}
use fortivpn_go.Ipsec.Options.Ready.{IsReady, new-IsReady}
use fortivpn_go.Ipsec.Negotiated.Sound.{HasPeer, IsSound, info-IsSound}
use fortivpn_go.Ipsec.Negotiated.Demo.{demo, asked, filled, report, negotiated, info_negotiated}

new-filled : new asked ≡ ok filled
unfolding new validate is_invalid_value byte_len text_eq is_multicast
new-filled = refl

new-IsReady_example : IsReady filled
new-IsReady_example = new-IsReady asked filled new-filled

info-IsSound_example :
    HasPeer demo filled true (codes "s") report × IsSound demo filled true negotiated
info-IsSound_example = info-IsSound demo filled true (codes "s") report negotiated info_negotiated
