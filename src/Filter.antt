-- ===== src/Filter.antt =====
-- src/alias.h: the address classes, `is_too_big`, `chk_drop` and `chk_selfaddr`, which judge a
-- packet before its NAT entry is looked up.
pub mod Ranges
mod Examples
use natporte.Base.{
  ℕ, ◌+◌, ◌-◌, ◌%◌, ◌^◌, ltb, ◌==◌, if◌then◌else◌, not, Bool, true, false, ◌&&◌, ◌||◌, List, [],
  ◌∷◌, bit_and, htons, htonl, u64, Bytes,
}
use natporte.Packet.{ip_off}
use natporte.Codes.{From, from_lan2wan, from_wan2lan, from_unknown}

-- The globals that the packet path reads: command line options, interface sizes and addresses.
pub record Config : Type 0 where
  pub opt_hostid : Bool
  pub opt_nagete_df : Bool
  pub wan_if_mtu : ℕ
  pub lan_if_mtu : ℕ
  pub lan_addr : List ℕ
  pub wan_addr : List ℕ
  pub icmp_wan_addr : ℕ

-- ALIAS_IS_CLASS_D, ALIAS_IS_LOOPBACK, ALIAS_IS_LOCAL, ALIAS_IS_PRIVATE, on host order.
unfoldable pub is_class_d : ℕ → Bool
is_class_d i = bit_and i 0xf0000000 == 0xe0000000

unfoldable pub is_loopback : ℕ → Bool
is_loopback i = bit_and i 0xff000000 == 0x7f000000

unfoldable pub is_local : ℕ → Bool
is_local i = bit_and i 0xffff0000 == 0xa9fe0000

unfoldable pub is_private : ℕ → Bool
is_private i =
    bit_and i 0xff000000 == 0x0a000000
    || bit_and i 0xfff00000 == 0xac100000
    || bit_and i 0xffff0000 == 0xc0a80000
    || bit_and i 0xffc00000 == 0x64400000

-- IP_DF.
abbrev pub ip_df : ℕ
ip_df = 0x4000

-- `true` is the -1 of the source; `x - 4` is a `size_t`.
unfoldable pub exceeds : Bool → ℕ → ℕ → Bool
exceeds opt_hostid mtu size = if opt_hostid then ltb (u64 (mtu + 2 ^ 64 - 4)) size else ltb mtu size

unfoldable pub has_df : Bytes → ℕ → Bool
has_df b at = not (bit_and (htons (ip_off b at)) ip_df == 0)

unfoldable pub is_too_big : Config → Bytes → ℕ → From → Bool
unfolding exceeds
is_too_big c b size from_lan2wan =
    if has_df b 0
    then if c.opt_nagete_df then false else exceeds c.opt_hostid c.wan_if_mtu size
    else false
is_too_big c b size from_wan2lan =
    if has_df b 0
    then if c.opt_nagete_df then false else exceeds c.opt_hostid c.lan_if_mtu size
    else false
is_too_big c b size from_unknown = false

-- `true` is the -1 of the source. The arguments are in network order.
unfoldable pub chk_drop : ℕ → ℕ → From → Bool
chk_drop src dst from_lan2wan =
    let src_host = htonl src in
    let dst_host = htonl dst in
    not (is_private src_host) || is_class_d dst_host || src_host == 0 || dst_host == 0
chk_drop src dst from_wan2lan =
    let src_host = htonl src in
    let dst_host = htonl dst in
    is_local dst_host
    || is_class_d dst_host
    || is_loopback dst_host
    || src_host == 0
    || dst_host == 0
chk_drop src dst from_unknown = false

-- The loop over the interface's addresses, which are in host order.
unfoldable pub any_addr : List ℕ → ℕ → Bool
any_addr [] dst_host = false
any_addr (a ∷ as') dst_host = a == dst_host || any_addr as' dst_host

-- `true` is ALIAS_TO_ME.
unfoldable pub chk_selfaddr : Config → ℕ → ℕ → From → Bool
unfolding any_addr
chk_selfaddr c src dst from_lan2wan = any_addr c.lan_addr (htonl dst)
chk_selfaddr c src dst from_wan2lan = any_addr c.wan_addr (htonl dst)
chk_selfaddr c src dst from_unknown = false
