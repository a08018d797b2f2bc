-- ===== src/Alias/Untouched.antt =====
-- src/alias.h: a packet that is not translated is left alone.
use natporte.Base.{ℕ, ◌≡◌, Bytes, Bool, true, false, arith}
use natporte.Codes.{Verdict, do_alias, del_table}
use natporte.TcpState.{State, tcp_state_check}
use natporte.Filter.{Config, chk_selfaddr}
use natporte.Codes.{from_wan2lan, from_lan2wan}
use natporte.Packet.{ip_src, ip_dst, l4, th_flags_at}
use natporte.Alias.{Globals, Aliased, set_flags}
use natporte.Alias.Wan2lan.{
  wan2lan_alias, tcp_hit_wan2lan, checked_wan2lan, tcp_wan2lan, udp_wan2lan, icmp_wan2lan,
  icmp_error_wan2lan, miss_wan2lan,
}
use natporte.Alias.Lan2wan.{
  lan2wan_alias, udp_lan2wan, udp_found_lan2wan, icmp_lan2wan, tcp_lan2wan, checked_lan2wan,
  tcp_hit_lan2wan,
}

-- ALIAS_DOALIAS and ALIAS_DEL_TABLE: the packet goes on, translated.
abbrev pub is_translated : Verdict → Bool
is_translated do_alias = true
is_translated del_table = true
is_translated v = false

abbrev Untouched : Bytes → Aliased → Type 0
Untouched b r = is_translated r.verdict ≡ false → r.buf ≡ b

checked :
    (f : State) (now : ℕ) (b : Bytes) (g : Globals) (p : ℕ)
    → Untouched b (checked_wan2lan f now b g p)
unfolding checked_wan2lan
checked f now b g p h = ground arith

hit :
    (f : State) (now : ℕ) (b : Bytes) (g : Globals) (p : ℕ)
    → Untouched b (tcp_hit_wan2lan f now b g p)
unfolding tcp_hit_wan2lan
hit f now b g p h = ground (
  arith,
  checked (tcp_state_check f (b (th_flags_at (l4 b 0))) from_wan2lan) now b
      (set_flags g p (tcp_state_check f (b (th_flags_at (l4 b 0))) from_wan2lan)) p,
)

tcp : (c : Config) (now : ℕ) (b : Bytes) (g : Globals) → Untouched b (tcp_wan2lan c now b g)
unfolding tcp_wan2lan miss_wan2lan
tcp c now b g h = grind (arith, hit)

udp : (c : Config) (now : ℕ) (b : Bytes) (g : Globals) → Untouched b (udp_wan2lan c now b g)
unfolding udp_wan2lan miss_wan2lan
udp c now b g h = ground arith

icmp_error :
    (c : Config) (now : ℕ) (b : Bytes) (size : ℕ) (g : Globals)
    → Untouched b (icmp_error_wan2lan c now b size g)
unfolding icmp_error_wan2lan miss_wan2lan
icmp_error c now b size g h = ground arith

icmp :
    (c : Config) (now : ℕ) (b : Bytes) (size : ℕ) (g : Globals)
    → Untouched b (icmp_wan2lan c now b size g)
unfolding icmp_wan2lan
icmp c now b size g h = ground (arith, icmp_error c now b size g)

-- `wan2lan_alias` leaves every byte of a packet as it is unless it returns ALIAS_DOALIAS or
-- ALIAS_DEL_TABLE.
pub wan2lan_alias-untouched :
    (c : Config) (now : ℕ) (b : Bytes) (size : ℕ) (g : Globals)
    → let r = wan2lan_alias c now b size g in is_translated r.verdict ≡ false → r.buf ≡ b
unfolding wan2lan_alias
wan2lan_alias-untouched c now b size g h =
    ground (arith, tcp c now b g, udp c now b g, icmp c now b size g)

checked_out :
    (f : State) (now : ℕ) (b : Bytes) (g : Globals) (p : ℕ)
    → Untouched b (checked_lan2wan f now b g p)
unfolding checked_lan2wan
checked_out f now b g p h = ground arith

hit_out :
    (f : State) (now : ℕ) (b : Bytes) (g : Globals) (p : ℕ)
    → Untouched b (tcp_hit_lan2wan f now b g p)
unfolding tcp_hit_lan2wan
hit_out f now b g p h = ground (
  arith,
  checked_out (tcp_state_check f (b (th_flags_at (l4 b 0))) from_lan2wan) now b
      (set_flags g p (tcp_state_check f (b (th_flags_at (l4 b 0))) from_lan2wan)) p,
)

tcp_out : (c : Config) (now : ℕ) (b : Bytes) (g : Globals) → Untouched b (tcp_lan2wan c now b g)
unfolding tcp_lan2wan
tcp_out c now b g h = grind (arith, hit_out)

-- `lan2wan_alias` leaves every byte of a packet that is not for the translator itself as it is
-- unless it returns ALIAS_DOALIAS or ALIAS_DEL_TABLE.
pub lan2wan_alias-untouched :
    (c : Config) (now : ℕ) (b : Bytes) (size : ℕ) (g : Globals)
    → chk_selfaddr c (ip_src b 0) (ip_dst b 0) from_lan2wan ≡ false
    → let r = lan2wan_alias c now b size g in is_translated r.verdict ≡ false → r.buf ≡ b
unfolding lan2wan_alias udp_lan2wan udp_found_lan2wan icmp_lan2wan
lan2wan_alias-untouched c now b size g self h = ground (arith, tcp_out c now b g)
