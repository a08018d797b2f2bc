-- ===== src/Divert/Release.antt =====
-- src/alias.h: which packets close their connection, ALIAS_DEL_TABLE.
use natporte.Base.{ℕ, ◌≡◌, ◌≢◌, Bytes, false, some, inl, inr, Option-cases, arith, load16, leb}
use natporte.Codes.{del_table}
use natporte.TcpState.{State, closed}
use natporte.Filter.{Config}
use natporte.Packet.{ip_p, ip_src, ip_dst, l4, sport_at, dport_at, ipproto_tcp}
use natporte.Table.{find_l2w, find_w2l, set_entry, attach}
use natporte.Alias.{Globals, Aliased, set_flags, wan_probe, lan_probe, to_lan, to_wan}
use natporte.Alias.Wan2lan.{
  wan2lan_alias, tcp_wan2lan, tcp_hit_wan2lan, checked_wan2lan, udp_wan2lan, icmp_wan2lan,
  icmp_error_wan2lan, miss_wan2lan,
}
use natporte.Alias.Lan2wan.{
  lan2wan_alias, tcp_lan2wan, tcp_hit_lan2wan, checked_lan2wan, udp_lan2wan, udp_found_lan2wan,
  icmp_lan2wan,
}

-- The segment for the entry `p` was rewritten to `out`, and has closed the entry.
abbrev pub Closes : Aliased → ℕ → Bytes → Type 0
Closes r p out = (r.buf ≡ out) × ((r.globals.table.entry p).flags ≡ closed)

hit :
    (f : State) (now : ℕ) (b : Bytes) (g : Globals) (p : ℕ)
    → (tcp_hit_wan2lan f now b g p).verdict ≡ del_table
    → Closes (tcp_hit_wan2lan f now b g p) p (to_lan b (g.table.entry p))
unfolding tcp_hit_wan2lan checked_wan2lan set_flags set_entry attach to_lan
hit f now b g p h = ground arith

udp : (c : Config) (now : ℕ) (b : Bytes) (g : Globals) → (udp_wan2lan c now b g).verdict ≢ del_table
unfolding udp_wan2lan miss_wan2lan
udp c now b g h = ground arith

icmp :
    (c : Config) (now : ℕ) (b : Bytes) (size : ℕ) (g : Globals)
    → (icmp_wan2lan c now b size g).verdict ≢ del_table
unfolding icmp_wan2lan icmp_error_wan2lan miss_wan2lan
icmp c now b size g h = ground arith

module _ (c : Config) (now : ℕ) (b : Bytes) (size : ℕ) (g : Globals) where
  pub wan2lan_alias-Closes :
      (wan2lan_alias c now b size g).verdict ≡ del_table
      → (ip_p b 0 ≡ ipproto_tcp)
        × (leb size 20 ≡ false)
        × (p : ℕ) × (find_w2l g.table
              (wan_probe (ip_p b 0) (load16 b (dport_at (l4 b 0))) (ip_dst b 0))
            ≡ some p)
        × Closes (wan2lan_alias c now b size g) p (to_lan b (g.table.entry p))
  unfolding wan2lan_alias tcp_wan2lan miss_wan2lan
  wan2lan_alias-Closes h =
      elim (Option-cases
        (find_w2l g.table (wan_probe (ip_p b 0) (load16 b (dport_at (l4 b 0))) (ip_dst b 0)))) [
          | inl n ↦ ground (arith, n, udp c now b g, icmp c now b size g)
          | inr (p, e) ↦
              let t = hit (g.table.entry p).flags now b g p in
              (
                ground (arith, udp c now b g, icmp c now b size g),
                ground arith,
                p,
                e,
                (
                  ground (arith, e, t, udp c now b g, icmp c now b size g),
                  ground (arith, e, t, udp c now b g, icmp c now b size g),
                ),
              )
        ]

hit_out :
    (f : State) (now : ℕ) (b : Bytes) (g : Globals) (p : ℕ)
    → (tcp_hit_lan2wan f now b g p).verdict ≡ del_table
    → Closes (tcp_hit_lan2wan f now b g p) p (to_wan b (g.table.entry p))
unfolding tcp_hit_lan2wan checked_lan2wan set_flags set_entry attach to_wan
hit_out f now b g p h = ground arith

udp_out :
    (c : Config) (now : ℕ) (b : Bytes) (size : ℕ) (g : Globals)
    → (udp_lan2wan c now b size g).verdict ≢ del_table
unfolding udp_lan2wan udp_found_lan2wan
udp_out c now b size g h = ground arith

module _ (c : Config) (now : ℕ) (b : Bytes) (size : ℕ) (g : Globals) where
  pub lan2wan_alias-Closes :
      (lan2wan_alias c now b size g).verdict ≡ del_table
      → (ip_p b 0 ≡ ipproto_tcp)
        × (leb size 20 ≡ false)
        × (p : ℕ) × (find_l2w g.table
              (lan_probe (ip_p b 0) (load16 b (sport_at (l4 b 0))) (ip_src b 0))
            ≡ some p)
        × Closes (lan2wan_alias c now b size g) p (to_wan b (g.table.entry p))
  unfolding lan2wan_alias tcp_lan2wan icmp_lan2wan
  lan2wan_alias-Closes h =
      elim (Option-cases
        (find_l2w g.table (lan_probe (ip_p b 0) (load16 b (sport_at (l4 b 0))) (ip_src b 0)))) [
          | inl n ↦ ground (arith, n, udp_out c now b size g)
          | inr (p, e) ↦
              let t = hit_out (g.table.entry p).flags now b g p in
              (
                ground (arith, udp_out c now b size g),
                ground arith,
                p,
                e,
                (
                  ground (arith, e, t, udp_out c now b size g),
                  ground (arith, e, t, udp_out c now b size g),
                ),
              )
        ]
