-- ===== src/Alias/Wan2lan.antt =====
-- src/alias.h: `wan2lan_alias`, a packet from the WAN, one function for each case of its switches.
use natporte.Base.{
  ℕ, ◌+◌, ◌==◌, leb, if◌then◌else◌, not, ◌||◌, Bytes, load16, store16, store32, none, some,
}
use natporte.Codes.{
  reset_table, del_table, to_me, do_alias, no_table, too_short, do_drop, not_support, too_big,
  from_wan2lan,
}
use natporte.TcpState.{State, closed, reset, unknown, tcp_state_check}
use natporte.Node.{Node}
use natporte.Table.{find_w2l}
use natporte.Packet.{
  ip_v, ip_p, ip_src, ip_dst, l4, ip_sum_at, ip_src_at, ip_dst_at, sport_at, dport_at, th_flags_at,
  icmp_cksum_at, ipproto_icmp, ipproto_tcp, ipproto_udp,
}
use natporte.Checksum.{checksum_ip, fill_checksum, segment_size}
use natporte.Filter.{Config, chk_drop, is_too_big, chk_selfaddr}
use natporte.Alias.{Globals, Aliased, aliased, attached, set_flags, wan_probe, to_lan}

-- The types and codes of ICMP that are told apart.
abbrev pub icmp_echoreply : ℕ
icmp_echoreply = 0

abbrev pub icmp_unreach : ℕ
icmp_unreach = 3

abbrev pub icmp_sourcequench : ℕ
icmp_sourcequench = 4

abbrev pub icmp_timxceed : ℕ
icmp_timxceed = 11

abbrev pub icmp_paramprob : ℕ
icmp_paramprob = 12

abbrev pub icmp_tstampreply : ℕ
icmp_tstampreply = 14

-- No entry has the WAN end that the packet is for.
unfoldable pub miss_wan2lan : Config → Bytes → Globals → Aliased
miss_wan2lan c b g =
    if chk_selfaddr c (ip_src b 0) (ip_dst b 0) from_wan2lan
    then aliased to_me b g
    else aliased no_table b g

-- A TCP segment for the entry `p` after its check, which left the entry with these flags.
unfoldable pub checked_wan2lan : State → ℕ → Bytes → Globals → ℕ → Aliased
checked_wan2lan closed now b g p = aliased del_table (to_lan b (g.table.entry p)) (attached g p now)
checked_wan2lan reset now b g p = aliased reset_table b g
checked_wan2lan unknown now b g p = aliased do_drop b g
checked_wan2lan f now b g p = aliased do_alias (to_lan b (g.table.entry p)) (attached g p now)

-- A TCP segment for the entry `p`, whose flags are given first.
unfoldable pub tcp_hit_wan2lan : State → ℕ → Bytes → Globals → ℕ → Aliased
unfolding checked_wan2lan
tcp_hit_wan2lan closed now b g p = aliased do_alias (to_lan b (g.table.entry p)) (attached g p now)
tcp_hit_wan2lan reset now b g p = aliased do_alias (to_lan b (g.table.entry p)) (attached g p now)
tcp_hit_wan2lan f now b g p =
    let flags = tcp_state_check f (b (th_flags_at (l4 b 0))) from_wan2lan in
    checked_wan2lan flags now b (set_flags g p flags) p

unfoldable pub tcp_wan2lan : Config → ℕ → Bytes → Globals → Aliased
unfolding tcp_hit_wan2lan miss_wan2lan
tcp_wan2lan c now b g =
    let n = wan_probe (ip_p b 0) (load16 b (dport_at (l4 b 0))) (ip_dst b 0) in
    elim (find_w2l g.table n) [
      | none ↦ miss_wan2lan c b g
      | some p ↦ tcp_hit_wan2lan (g.table.entry p).flags now b g p
    ]

unfoldable pub udp_wan2lan : Config → ℕ → Bytes → Globals → Aliased
unfolding miss_wan2lan
udp_wan2lan c now b g =
    let n = wan_probe (ip_p b 0) (load16 b (dport_at (l4 b 0))) (ip_dst b 0) in
    elim (find_w2l g.table n) [
      | none ↦ miss_wan2lan c b g
      | some p ↦ aliased do_alias (to_lan b (g.table.entry p)) (attached g p now)
    ]

-- Both checksums of an ICMP error: of the header at `ext` inside it and of the message itself.
unfoldable pub icmp_sums : Bytes → ℕ → ℕ → Bytes
icmp_sums b size ext =
    let icmp = l4 b 0 in
    let b = checksum_ip b ext in fill_checksum b icmp (segment_size b 0 size) 0 (icmp_cksum_at icmp)

-- An ICMP error about a packet of the entry `p`; the packet's own header is at `ext`.
unfoldable pub icmp_to_lan : Bytes → ℕ → ℕ → Node → Bytes
unfolding icmp_sums
icmp_to_lan b size ext t =
    let ext_l4 = l4 b ext in
    let b = store32 b (ip_dst_at 0) t.lan.ip in
    let b = store32 b (ip_src_at ext) t.lan.ip in
    let b = store16 b (sport_at ext_l4) t.lan.port in icmp_sums b size ext

-- An ICMP error about an echo request.
unfoldable pub icmp_to_bucket : Bytes → ℕ → ℕ → Globals → Bytes
unfolding icmp_sums
icmp_to_bucket b size ext g =
    let b = store32 b (ip_dst_at 0) g.icmp_bucket.local_ip in
    let b = store32 b (ip_dst_at ext) g.icmp_bucket.local_ip in
    let b = store32 b (ip_src_at ext) g.icmp_bucket.foreign_ip in icmp_sums b size ext

-- ICMP_UNREACH, ICMP_SOURCEQUENCH, ICMP_TIMXCEED, ICMP_PARAMPROB. An entry of neither TCP nor
-- UDP falls through to the default case.
unfoldable pub icmp_error_wan2lan : Config → ℕ → Bytes → ℕ → Globals → Aliased
unfolding miss_wan2lan icmp_to_lan icmp_to_bucket
icmp_error_wan2lan c now b size g =
    let ext = l4 b 0 + 8 in
    let protocol = ip_p b ext in
    let n = wan_probe protocol (load16 b (sport_at (l4 b ext))) (ip_src b ext) in
    if protocol == ipproto_icmp
    then aliased do_alias (icmp_to_bucket b size ext g) g
    else if protocol == ipproto_tcp || protocol == ipproto_udp
    then elim (find_w2l g.table n) [
      | none ↦ miss_wan2lan c b g
      | some p ↦
          let t = g.table.entry p in
          if t.protocol == ipproto_tcp || t.protocol == ipproto_udp
          then aliased do_alias (icmp_to_lan b size ext t) (attached g p now)
          else aliased not_support b g
    ]
    else aliased not_support b g

unfoldable pub icmp_wan2lan : Config → ℕ → Bytes → ℕ → Globals → Aliased
unfolding icmp_error_wan2lan
icmp_wan2lan c now b size g =
    let type = b (l4 b 0) in
    if type == icmp_echoreply || type == icmp_tstampreply
    then if chk_selfaddr c (ip_src b 0) g.icmp_bucket.local_ip from_wan2lan
      then aliased to_me b g
      else aliased do_alias
          (store16 (store32 b (ip_dst_at 0) g.icmp_bucket.local_ip) (ip_sum_at 0) 0) g
    else if type == icmp_unreach
        || type == icmp_sourcequench
        || type == icmp_timxceed
        || type == icmp_paramprob
    then icmp_error_wan2lan c now b size g
    else aliased not_support b g

unfoldable pub wan2lan_alias : Config → ℕ → Bytes → ℕ → Globals → Aliased
unfolding tcp_wan2lan udp_wan2lan icmp_wan2lan
wan2lan_alias c now b size g =
    if leb size 20
    then aliased too_short b g
    else if not (ip_v b 0 == 4)
    then aliased do_drop b g
    else if chk_drop (ip_src b 0) (ip_dst b 0) from_wan2lan
    then aliased do_drop b g
    else if is_too_big c b size from_wan2lan
    then aliased too_big b g
    else if ip_p b 0 == ipproto_tcp
    then tcp_wan2lan c now b g
    else if ip_p b 0 == ipproto_udp
    then udp_wan2lan c now b g
    else if ip_p b 0 == ipproto_icmp
    then icmp_wan2lan c now b size g
    else aliased not_support b g
