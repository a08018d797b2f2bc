-- ===== src/Filter/Examples.antt =====
-- Addresses and sizes that the filter judges.
use natporte.Base.{
  ◌≡◌, ◌≢◌, ◌↔◌, ◌⊎◌, ◌<◌, refl, true, false, [], ◌∷◌, Bytes, from_list, htonl, htons, load16,
}
use natporte.Codes.{from_lan2wan, from_wan2lan}
use natporte.Filter.{Config, chk_drop, chk_selfaddr, is_too_big, has_df, is_private, is_class_d}
use natporte.Filter.Ranges.{ip4, Private, chk_drop-lan2wan_iff, chk_drop-wan2lan_iff}

abbrev config : Config
config = record {
  opt_hostid = false;
  opt_nagete_df = false;
  wan_if_mtu = 1500;
  lan_if_mtu = 1500;
  lan_addr = ip4 192 168 0 1 ∷ [];
  wan_addr = ip4 203 0 113 1 ∷ [];
  icmp_wan_addr = 0;
}

-- An IP header that forbids fragments.
abbrev no_fragments : Bytes
no_fragments = from_list (0x45 ∷ 0 ∷ 0 ∷ 0 ∷ 0 ∷ 0 ∷ 0x40 ∷ 0 ∷ [])

to_router :
    chk_selfaddr config (htonl (ip4 192 168 0 7)) (htonl (ip4 192 168 0 1)) from_lan2wan ≡ true
unfolding chk_selfaddr htonl
to_router = refl

public_source : chk_drop (htonl (ip4 8 8 8 8)) (htonl (ip4 1 1 1 1)) from_lan2wan ≡ true
unfolding chk_drop htonl is_private is_class_d
public_source = refl

chk_drop-lan2wan_iff_example : (chk_drop 0x0101a8c0 0x08080808 from_lan2wan ≡ false) ↔ (
    Private (htonl 0x0101a8c0)
    × (htonl 0x08080808 ≢ 0)
    × ((htonl 0x08080808 < ip4 224 0 0 0) ⊎ (ip4 239 255 255 255 < htonl 0x08080808)))
chk_drop-lan2wan_iff_example = chk_drop-lan2wan_iff 0x0101a8c0 0x08080808

chk_drop-wan2lan_iff_example : (chk_drop 0x08080808 0x017100cb from_wan2lan ≡ false) ↔ (
    (htonl 0x08080808 ≢ 0)
    × (htonl 0x017100cb ≢ 0)
    × ((htonl 0x017100cb < ip4 169 254 0 0) ⊎ (ip4 169 254 255 255 < htonl 0x017100cb))
    × ((htonl 0x017100cb < ip4 224 0 0 0) ⊎ (ip4 239 255 255 255 < htonl 0x017100cb))
    × ((htonl 0x017100cb < ip4 127 0 0 0) ⊎ (ip4 127 255 255 255 < htonl 0x017100cb)))
chk_drop-wan2lan_iff_example = chk_drop-wan2lan_iff 0x08080808 0x017100cb

too_big : is_too_big config no_fragments 1501 from_lan2wan ≡ true
unfolding is_too_big has_df htons load16
too_big = refl
