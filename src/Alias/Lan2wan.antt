-- ===== src/Alias/Lan2wan.antt =====
-- src/alias.h: `lan2wan_alias`, a packet from the LAN, built without OPT_HOSTID.
use natporte.Base.{
  ℕ, ◌==◌, leb, if◌then◌else◌, not, ◌||◌, Bytes, load16, store16, store32, none, some, Bool, true,
  false,
}
use natporte.Codes.{
  Verdict, reset_table, del_table, to_me, do_alias, no_table, too_short, do_drop, not_support,
  too_big, from_lan2wan,
}
use natporte.TcpState.{State, closed, reset, unknown, th_syn, tcp_state_check}
use natporte.Table.{find_l2w}
use natporte.Packet.{
  ip_v, ip_p, ip_src, ip_dst, l4, ip_sum_at, ip_src_at, sport_at, th_flags_at, ipproto_icmp,
  ipproto_tcp, ipproto_udp,
}
use natporte.Filter.{Config, chk_drop, is_too_big, chk_selfaddr}
use natporte.Alias.{Globals, Aliased, aliased, attached, set_flags, lan_probe, to_wan}
use natporte.Alias.Wan2lan.{wan2lan_alias, icmp_tstampreply}

abbrev pub icmp_echo : ℕ
icmp_echo = 8

-- `ret == ALIAS_DOALIAS`.
unfoldable pub is_do_alias : Verdict → Bool
is_do_alias do_alias = true
is_do_alias v = false

-- A TCP segment for the entry `p` after its check, which left the entry with these flags.
unfoldable pub checked_lan2wan : State → ℕ → Bytes → Globals → ℕ → Aliased
checked_lan2wan closed now b g p = aliased del_table (to_wan b (g.table.entry p)) (attached g p now)
checked_lan2wan reset now b g p = aliased reset_table b g
checked_lan2wan unknown now b g p = aliased reset_table b g
checked_lan2wan f now b g p = aliased do_alias (to_wan b (g.table.entry p)) (attached g p now)

-- A TCP segment for the entry `p`, whose flags are given first.
unfoldable pub tcp_hit_lan2wan : State → ℕ → Bytes → Globals → ℕ → Aliased
unfolding checked_lan2wan
tcp_hit_lan2wan closed now b g p = aliased do_alias (to_wan b (g.table.entry p)) (attached g p now)
tcp_hit_lan2wan reset now b g p = aliased do_alias (to_wan b (g.table.entry p)) (attached g p now)
tcp_hit_lan2wan f now b g p =
    let flags = tcp_state_check f (b (th_flags_at (l4 b 0))) from_lan2wan in
    checked_lan2wan flags now b (set_flags g p flags) p

unfoldable pub tcp_lan2wan : Config → ℕ → Bytes → Globals → Aliased
unfolding tcp_hit_lan2wan
tcp_lan2wan c now b g =
    if chk_selfaddr c (ip_src b 0) (ip_dst b 0) from_lan2wan
    then aliased to_me b g
    else let n = lan_probe (ip_p b 0) (load16 b (sport_at (l4 b 0))) (ip_src b 0) in
      elim (find_l2w g.table n) [
        | none ↦
            if b (th_flags_at (l4 b 0)) == th_syn then aliased no_table b g else aliased do_drop b g
        | some p ↦ tcp_hit_lan2wan (g.table.entry p).flags now b g p
      ]

-- The lookup of a UDP datagram. Its ends are read before a hairpin translation of `b`.
unfoldable pub udp_found_lan2wan : ℕ → ℕ → ℕ → Bytes → Globals → Aliased
udp_found_lan2wan now sport src b g = elim (find_l2w g.table (lan_probe (ip_p b 0) sport src)) [
  | none ↦ aliased no_table b g
  | some p ↦ aliased do_alias (to_wan b (g.table.entry p)) (attached g p now)
]

-- A datagram for the translator's own address is first translated as if from the WAN.
unfoldable pub udp_lan2wan : Config → ℕ → Bytes → ℕ → Globals → Aliased
unfolding udp_found_lan2wan
udp_lan2wan c now b size g =
    let sport = load16 b (sport_at (l4 b 0)) in
    let src = ip_src b 0 in
    if chk_selfaddr c src (ip_dst b 0) from_lan2wan
    then (let hairpin = wan2lan_alias c now b size g in
        if is_do_alias hairpin.verdict
        then udp_found_lan2wan now sport src hairpin.buf hairpin.globals
        else aliased to_me hairpin.buf hairpin.globals)
    else udp_found_lan2wan now sport src b g

unfoldable pub icmp_lan2wan : Config → Bytes → Globals → Aliased
icmp_lan2wan c b g =
    let type = b (l4 b 0) in
    if type == icmp_echo || type == icmp_tstampreply
    then if chk_selfaddr c (ip_src b 0) (ip_dst b 0) from_lan2wan
      then aliased to_me b g
      else aliased do_alias (store16 (store32 b (ip_src_at 0) c.icmp_wan_addr) (ip_sum_at 0) 0)
          (record g { icmp_bucket = record { local_ip = ip_src b 0; foreign_ip = ip_dst b 0 } })
    else aliased not_support b g

unfoldable pub lan2wan_alias : Config → ℕ → Bytes → ℕ → Globals → Aliased
unfolding tcp_lan2wan udp_lan2wan icmp_lan2wan
lan2wan_alias c now b size g =
    if leb size 20
    then aliased too_short b g
    else if not (ip_v b 0 == 4)
    then aliased do_drop b g
    else if chk_drop (ip_src b 0) (ip_dst b 0) from_lan2wan
    then aliased do_drop b g
    else if is_too_big c b size from_lan2wan
    then aliased too_big b g
    else if ip_p b 0 == ipproto_tcp
    then tcp_lan2wan c now b g
    else if ip_p b 0 == ipproto_udp
    then udp_lan2wan c now b size g
    else if ip_p b 0 == ipproto_icmp
    then icmp_lan2wan c b g
    else aliased not_support b g
