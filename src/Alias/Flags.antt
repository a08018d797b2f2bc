-- ===== src/Alias/Flags.antt =====
-- src/alias.h: the TCP state of the entries, which moves as `tcp_state_check` says.
use natporte.Base.{ℕ, ◌≡◌, Bytes, some, arith, ◌⊎◌, load16, ◌==◌, if◌then◌else◌, Option}
use natporte.Codes.{From, from_wan2lan, from_lan2wan}
use natporte.TcpState.{State, entry_step}
use natporte.Filter.{Config}
use natporte.Packet.{
  ip_p, ip_src, ip_dst, ipproto_tcp, ipproto_udp, dport_at, sport_at, l4, th_flags_at,
}
use natporte.Table.{find_w2l, find_l2w, set_entry, attach}
use natporte.Alias.{Globals, set_flags, wan_probe, lan_probe}
use natporte.Alias.Wan2lan.{
  wan2lan_alias, tcp_hit_wan2lan, checked_wan2lan, tcp_wan2lan, udp_wan2lan, icmp_wan2lan,
  icmp_error_wan2lan, miss_wan2lan,
}
use natporte.Alias.Lan2wan.{
  lan2wan_alias, udp_lan2wan, udp_found_lan2wan, icmp_lan2wan, tcp_lan2wan, checked_lan2wan,
  tcp_hit_lan2wan,
}

-- The flags of `q` after a packet with these flags for the entry `p`.
abbrev stepped : From → ℕ → Globals → ℕ → ℕ → State
stepped from flags g p q =
    if q == p then entry_step (g.table.entry q).flags from flags else (g.table.entry q).flags

abbrev flags_of : Globals → ℕ → State
flags_of g q = (g.table.entry q).flags

module _ (now : ℕ) (b : Bytes) (g : Globals) (q : ℕ) where
  hit :
      (p : ℕ)
      → flags_of (tcp_hit_wan2lan (g.table.entry p).flags now b g p).globals q
        ≡ stepped from_wan2lan (b (th_flags_at (l4 b 0))) g p q
  unfolding tcp_hit_wan2lan checked_wan2lan set_flags attach set_entry entry_step
  hit p = ground arith

  hit_out :
      (p : ℕ)
      → flags_of (tcp_hit_lan2wan (g.table.entry p).flags now b g p).globals q
        ≡ stepped from_lan2wan (b (th_flags_at (l4 b 0))) g p q
  unfolding tcp_hit_lan2wan checked_lan2wan set_flags attach set_entry entry_step
  hit_out p = ground arith

  -- The flags of `q` are as before, or the packet is for `q` and moves them.
  abbrev pub Follows : From → Option ℕ → Globals → Type 0
  Follows from found g' =
      (flags_of g' q ≡ flags_of g q)
      ⊎ ((ip_p b 0 ≡ ipproto_tcp)
          × (found ≡ some q)
          × (flags_of g' q ≡ entry_step (flags_of g q) from (b (th_flags_at (l4 b 0)))))

  tcp :
      (c : Config)
      → ip_p b 0 ≡ ipproto_tcp
      → Follows from_wan2lan
          (find_w2l g.table (wan_probe (ip_p b 0) (load16 b (dport_at (l4 b 0))) (ip_dst b 0)))
          (tcp_wan2lan c now b g).globals
  unfolding tcp_wan2lan miss_wan2lan
  tcp c h = grind (arith, hit)

  tcp_out :
      (c : Config)
      → ip_p b 0 ≡ ipproto_tcp
      → Follows from_lan2wan
          (find_l2w g.table (lan_probe (ip_p b 0) (load16 b (sport_at (l4 b 0))) (ip_src b 0)))
          (tcp_lan2wan c now b g).globals
  unfolding tcp_lan2wan
  tcp_out c h = grind (arith, hit_out)

  udp : (c : Config) → flags_of (udp_wan2lan c now b g).globals q ≡ flags_of g q
  unfolding udp_wan2lan miss_wan2lan attach set_entry
  udp c = ground arith

  icmp : (c : Config) (size : ℕ) → flags_of (icmp_wan2lan c now b size g).globals q ≡ flags_of g q
  unfolding icmp_wan2lan icmp_error_wan2lan miss_wan2lan attach set_entry
  icmp c size = ground arith

  -- A packet from the WAN leaves the TCP state of every entry as it is, but for that of the
  -- entry which its protocol, destination address and destination port find, and then only if it
  -- is a TCP segment, whose flags move the state by one step of the state machine.
  pub wan2lan_alias-Follows :
      (c : Config) (size : ℕ)
      → Follows from_wan2lan
          (find_w2l g.table (wan_probe (ip_p b 0) (load16 b (dport_at (l4 b 0))) (ip_dst b 0)))
          (wan2lan_alias c now b size g).globals
  unfolding wan2lan_alias
  wan2lan_alias-Follows c size = ground (arith, tcp c, udp c, icmp c size)

udp_out :
    (c : Config) (now : ℕ) (b : Bytes) (size : ℕ) (g : Globals) (q : ℕ)
    → ip_p b 0 ≡ ipproto_udp
    → flags_of (udp_lan2wan c now b size g).globals q ≡ flags_of g q
unfolding udp_lan2wan udp_found_lan2wan attach set_entry
udp_out c now b size g q h = ground (arith, wan2lan_alias-Follows now b g q c size)

-- A packet from the LAN leaves the TCP state of every entry as it is, but for that of the entry
-- which its protocol, source address and source port find, and then only if it is a TCP segment,
-- whose flags move the state by one step of the state machine.
pub lan2wan_alias-Follows :
    (c : Config) (now : ℕ) (b : Bytes) (size : ℕ) (g : Globals) (q : ℕ)
    → Follows now b g q from_lan2wan
        (find_l2w g.table (lan_probe (ip_p b 0) (load16 b (sport_at (l4 b 0))) (ip_src b 0)))
        (lan2wan_alias c now b size g).globals
unfolding lan2wan_alias icmp_lan2wan
lan2wan_alias-Follows c now b size g q =
    ground (arith, tcp_out now b g q c, udp_out c now b size g q)
