-- ===== src/Alias/Entries.antt =====
-- src/alias.h: what the translation does to the table. Only access times and TCP states change.
use natporte.Base.{ℕ, ◌≡◌, ap, ◌∙◌, load16, Bytes, arith}
use natporte.TcpState.{State, established}
use natporte.Filter.{Config}
use natporte.Node.{Node, timer_loop}
use natporte.Packet.{ip_src, sport_at, l4}
use natporte.Table.Inv.{IsTable}
use natporte.Table.Same.{IsTable-Same}
use natporte.Table.{set_entry, attach}
use natporte.Alias.{Globals, Aliased, set_flags, attached}
use natporte.Alias.Wan2lan.{
  wan2lan_alias, tcp_hit_wan2lan, checked_wan2lan, tcp_wan2lan, udp_wan2lan, icmp_wan2lan,
  icmp_error_wan2lan, miss_wan2lan,
}
use natporte.Alias.Lan2wan.{
  lan2wan_alias, udp_lan2wan, udp_found_lan2wan, icmp_lan2wan, tcp_lan2wan, checked_lan2wan,
  tcp_hit_lan2wan,
}

-- An entry without its access time and its TCP state.
abbrev pub identity : Node → Node
identity n = record n { atime = 0; flags = established }

-- Both trees and the identity of every entry are the same.
abbrev pub Keeps : Globals → Globals → Type 0
Keeps g g' =
    (g'.table.l2w ≡ g.table.l2w)
    × (g'.table.w2l ≡ g.table.w2l)
    × ((q : ℕ) → identity (g'.table.entry q) ≡ identity (g.table.entry q))

attached-Keeps : (g : Globals) (p now : ℕ) → Keeps g (attached g p now)
unfolding attach
attached-Keeps g p now = ground arith

set_flags-Keeps : (g : Globals) (p : ℕ) (f : State) → Keeps g (set_flags g p f)
unfolding set_flags set_entry
set_flags-Keeps g p f = ground arith

both-Keeps : (g : Globals) (p now : ℕ) (f : State) → Keeps g (attached (set_flags g p f) p now)
unfolding set_flags set_entry attach
both-Keeps g p now f = ground arith

checked :
    (f : State) (now : ℕ) (b : Bytes) (g : Globals) (p : ℕ)
    → Keeps g (checked_wan2lan f now b g p).globals
unfolding checked_wan2lan attach set_entry
checked f now b g p = ground arith

hit :
    (f : State) (now : ℕ) (b : Bytes) (g : Globals) (p : ℕ)
    → Keeps g (tcp_hit_wan2lan f now b g p).globals
unfolding tcp_hit_wan2lan checked_wan2lan set_flags attach set_entry
hit f now b g p = ground arith

tcp : (c : Config) (now : ℕ) (b : Bytes) (g : Globals) → Keeps g (tcp_wan2lan c now b g).globals
unfolding tcp_wan2lan miss_wan2lan
tcp c now b g = grind (arith, hit)

udp : (c : Config) (now : ℕ) (b : Bytes) (g : Globals) → Keeps g (udp_wan2lan c now b g).globals
unfolding udp_wan2lan miss_wan2lan attach set_entry
udp c now b g = ground arith

icmp :
    (c : Config) (now : ℕ) (b : Bytes) (size : ℕ) (g : Globals)
    → Keeps g (icmp_wan2lan c now b size g).globals
unfolding icmp_wan2lan icmp_error_wan2lan miss_wan2lan attach set_entry
icmp c now b size g = ground arith

-- A packet from the WAN.
pub wan2lan_alias-Keeps :
    (c : Config) (now : ℕ) (b : Bytes) (size : ℕ) (g : Globals)
    → Keeps g (wan2lan_alias c now b size g).globals
unfolding wan2lan_alias
wan2lan_alias-Keeps c now b size g =
    ground (arith, tcp c now b g, udp c now b g, icmp c now b size g)

checked_out :
    (f : State) (now : ℕ) (b : Bytes) (g : Globals) (p : ℕ)
    → Keeps g (checked_lan2wan f now b g p).globals
unfolding checked_lan2wan attach set_entry
checked_out f now b g p = ground arith

hit_out :
    (f : State) (now : ℕ) (b : Bytes) (g : Globals) (p : ℕ)
    → Keeps g (tcp_hit_lan2wan f now b g p).globals
unfolding tcp_hit_lan2wan checked_lan2wan set_flags attach set_entry
hit_out f now b g p = ground arith

tcp_out : (c : Config) (now : ℕ) (b : Bytes) (g : Globals) → Keeps g (tcp_lan2wan c now b g).globals
unfolding tcp_lan2wan
tcp_out c now b g = grind (arith, hit_out)

Keeps-trans : (g h k : Globals) → Keeps g h → Keeps h k → Keeps g k
Keeps-trans g h k a b = (b.0 ∙ a.0, b.1 ∙ a.1, λ q. b.2 q ∙ a.2 q)

udp_found :
    (now sport src : ℕ) (b : Bytes) (g : Globals)
    → Keeps g (udp_found_lan2wan now sport src b g).globals
unfolding udp_found_lan2wan attach set_entry
udp_found now sport src b g = ground arith

udp_out :
    (c : Config) (now : ℕ) (b : Bytes) (size : ℕ) (g : Globals)
    → Keeps g (udp_lan2wan c now b size g).globals
unfolding udp_lan2wan
udp_out c now b size g =
    let r : Aliased = wan2lan_alias c now b size g in
    let k = wan2lan_alias-Keeps c now b size g in
    ground (
      arith,
      k,
      udp_found now (load16 b (sport_at (l4 b 0))) (ip_src b 0) b g,
      Keeps-trans g r.globals
          (udp_found_lan2wan now (load16 b (sport_at (l4 b 0))) (ip_src b 0) r.buf
            r.globals).globals
          k (udp_found now (load16 b (sport_at (l4 b 0))) (ip_src b 0) r.buf r.globals),
    )

-- A packet from the LAN.
pub lan2wan_alias-Keeps :
    (c : Config) (now : ℕ) (b : Bytes) (size : ℕ) (g : Globals)
    → Keeps g (lan2wan_alias c now b size g).globals
unfolding lan2wan_alias icmp_lan2wan
lan2wan_alias-Keeps c now b size g = ground (arith, tcp_out c now b g, udp_out c now b size g)

-- The table is as good after a packet as before.
pub IsTable-Keeps : (g g' : Globals) → Keeps g g' → IsTable g.table → IsTable g'.table
IsTable-Keeps g g' k =
    IsTable-Same g.table g'.table
      (k.0, k.1, λ p i. ap (λ (n : Node). record n { ctime = 0; timer_flags = timer_loop }) (k.2 p))

-- Whatever packet `wan2lan_alias` or `lan2wan_alias` gets, it keeps the table good: both trees
-- sorted red-black trees of the same entries, each entry's keys those of its two ends.
pub alias-IsTable :
    (c : Config) (now : ℕ) (b : Bytes) (size : ℕ) (g : Globals)
    → IsTable g.table
    → IsTable (wan2lan_alias c now b size g).globals.table
      × IsTable (lan2wan_alias c now b size g).globals.table
alias-IsTable c now b size g w = (
  IsTable-Keeps g (wan2lan_alias c now b size g).globals (wan2lan_alias-Keeps c now b size g) w,
  IsTable-Keeps g (lan2wan_alias c now b size g).globals (lan2wan_alias-Keeps c now b size g) w,
)
