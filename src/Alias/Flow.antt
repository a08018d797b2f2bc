-- ===== src/Alias/Flow.antt =====
-- src/alias.h: how a flow from the LAN and its reply from the WAN meet the same entry.
use natporte.Base.{
  ℕ, ◌≤◌, leb, ◌≡◌, refl, sym, ap, ap₂, ◌∙◌, arith, Bytes, IsBytes, load16, load16-lt, load32-lt,
  inl, inr, true, false, some, Option-cases,
}
use natporte.Codes.{do_alias, from_lan2wan, from_wan2lan}
use natporte.TcpState.{State}
use natporte.Filter.{Config, chk_drop, is_too_big, chk_selfaddr}
use natporte.Node.{Node, Endpoint, var, var_lan, var_wan}
use natporte.Node.Keys.{FitsEnd}
use natporte.Packet.{
  ip_v, ip_hl, ip_p, ip_src, ip_dst, l4, sport_at, dport_at, ipproto_tcp, ipproto_udp,
}
use natporte.Table.{set_entry, find_l2w, find_w2l}
use natporte.Table.Inv.{IsTable, IsEntry, find_l2w-lan, find_w2l-entry}
use natporte.Alias.{Globals, set_flags, lan_probe, wan_probe, to_lan, to_wan}
use natporte.Alias.Wan2lan.{
  wan2lan_alias, tcp_wan2lan, udp_wan2lan, tcp_hit_wan2lan, checked_wan2lan,
}
use natporte.Alias.Lan2wan.{
  lan2wan_alias, tcp_lan2wan, udp_lan2wan, udp_found_lan2wan, tcp_hit_lan2wan, checked_lan2wan,
}
use natporte.Alias.Untouched.{is_translated}
use natporte.Alias.Rewrite.{to_wan-ends, to_lan-ends}
use natporte.Alias.Entries.{Keeps, IsTable-Keeps}

-- The packet passes the tests that come before a lookup.
abbrev pub Passes : Config → Bytes → ℕ → Type 0
Passes c b size =
    (leb size 20 ≡ false)
    × (ip_v b 0 ≡ 4)
    × (chk_drop (ip_src b 0) (ip_dst b 0) from_wan2lan ≡ false)
    × (is_too_big c b size from_wan2lan ≡ false)

-- A datagram from the LAN to another host that is translated has an entry.
pub udp_sent :
    (c : Config) (now : ℕ) (b : Bytes) (size : ℕ) (g : Globals)
    → ip_p b 0 ≡ ipproto_udp
    → chk_selfaddr c (ip_src b 0) (ip_dst b 0) from_lan2wan ≡ false
    → (lan2wan_alias c now b size g).verdict ≡ do_alias
    → (p : ℕ) × (find_l2w g.table (lan_probe (ip_p b 0) (load16 b (sport_at (l4 b 0))) (ip_src b 0))
        ≡ some p)
      × ((lan2wan_alias c now b size g).buf ≡ to_wan b (g.table.entry p))
unfolding lan2wan_alias udp_lan2wan udp_found_lan2wan
udp_sent c now b size g udp self done =
    elim (Option-cases
      (find_l2w g.table (lan_probe (ip_p b 0) (load16 b (sport_at (l4 b 0))) (ip_src b 0)))) [
        | inl n ↦ ground (arith, n, self, udp)
        | inr (p, e) ↦ (p, e, ground (arith, e, self, udp))
      ]

-- A datagram from the WAN for an entry is translated to its LAN end.
pub udp_received :
    (c : Config) (now : ℕ) (b : Bytes) (size : ℕ) (g : Globals) (p : ℕ)
    → ip_p b 0 ≡ ipproto_udp
    → Passes c b size
    → find_w2l g.table (wan_probe (ip_p b 0) (load16 b (dport_at (l4 b 0))) (ip_dst b 0)) ≡ some p
    → ((wan2lan_alias c now b size g).verdict ≡ do_alias)
      × ((wan2lan_alias c now b size g).buf ≡ to_lan b (g.table.entry p))
unfolding wan2lan_alias udp_wan2lan
udp_received c now b size g p udp pass e = ground (arith, e, pass)

Endpoint-≡ :
    (port ip : ℕ) (e : Endpoint)
    → port ≡ e.port
    → ip ≡ e.ip
    → ◌≡◌ {A = Endpoint} (record { port = port; ip = ip }) e
Endpoint-≡ port ip e p i = ap₂ (λ a b. record { port = a; ip = b }) p i

lan_probe-fits :
    (b : Bytes)
    → IsBytes b
    → FitsEnd (ip_p b 0) (record { port = load16 b (sport_at (l4 b 0)); ip = ip_src b 0 })
lan_probe-fits b bytes = record {
  protocol_u8 = bytes 9;
  port_u16 = load16-lt b _ bytes;
  ip_u32 = load32-lt b _ bytes;
}

-- The reply to a packet that was sent as the entry `p` finds that entry, in the table as the
-- packet left it, and its LAN end is where the packet came from.
pub returns :
    (b reply out : Bytes) (g g' : Globals) (p : ℕ)
    → IsBytes b
    → IsTable g.table
    → Keeps g g'
    → 5 ≤ ip_hl b 0
    → ip_p reply 0 ≡ ip_p b 0
    → find_l2w g.table (lan_probe (ip_p b 0) (load16 b (sport_at (l4 b 0))) (ip_src b 0)) ≡ some p
    → out ≡ to_wan b (g.table.entry p)
    → ip_dst reply 0 ≡ ip_src out 0
    → load16 reply (dport_at (l4 reply 0)) ≡ load16 out (sport_at (l4 b 0))
    → (find_w2l g'.table
          (wan_probe (ip_p reply 0) (load16 reply (dport_at (l4 reply 0))) (ip_dst reply 0))
        ≡ some p)
      × IsEntry (g'.table.entry p)
      × ((g'.table.entry p).lan ≡ record { port = load16 b (sport_at (l4 b 0)); ip = ip_src b 0 })
unfolding lan_probe wan_probe var_lan var_wan
returns b reply out g g' p bytes table keeps hl protocol_same found made to_ip to_port =
    let probe : Node = lan_probe (ip_p b 0) (load16 b (sport_at (l4 b 0))) (ip_src b 0) in
    let (here, protocol, lan) =
      find_l2w-lan g.table probe p table (lan_probe-fits b bytes) refl found in
    let entry = table.entries p here in
    let n : Node = g.table.entry p in
    let n' : Node = g'.table.entry p in
    let src = to_wan-ends b n hl entry.wan_fits.ip_u32 entry.wan_fits.port_u16 in
    let table' = IsTable-Keeps g g' keeps table in
    let wan_key : var (ip_p reply 0)
          (record { port = load16 reply (dport_at (l4 reply 0)); ip = ip_dst reply 0 })
        ≡ n'.w2l_key =
      ap₂ var (protocol_same ∙ sym protocol) (
        Endpoint-≡ _ _ n.wan
          (to_port ∙ ap (λ (o : Bytes). load16 o (sport_at (l4 b 0))) made ∙ src.1)
          (to_ip ∙ ap (λ (o : Bytes). ip_src o 0) made ∙ src.0))
      ∙ sym entry.w2l_keyed
      ∙ sym (ap (λ (m : Node). m.w2l_key) (keeps.2 p)) in
    (
      find_w2l-entry g'.table
          (wan_probe (ip_p reply 0) (load16 reply (dport_at (l4 reply 0))) (ip_dst reply 0)) p
          table' (rw keeps.0 here) wan_key,
      table'.entries p (rw keeps.0 here),
      ap (λ (m : Node). m.lan) (keeps.2 p) ∙ lan,
    )

-- A packet rewritten to the LAN end of an entry goes there.
pub delivered :
    (b out : Bytes) (n : Node) (e : Endpoint)
    → 5 ≤ ip_hl b 0
    → IsEntry n
    → n.lan ≡ e
    → out ≡ to_lan b n
    → (ip_dst out 0 ≡ e.ip) × (load16 out (dport_at (l4 b 0)) ≡ e.port)
delivered b out n e hl w same made =
    let dst = to_lan-ends b n hl w.lan_fits.ip_u32 w.lan_fits.port_u16 in
    rw made (dst.0 ∙ ap (λ (m : Endpoint). m.ip) same, dst.1 ∙ ap (λ (m : Endpoint). m.port) same)

hit_sent :
    (f : State) (now : ℕ) (b : Bytes) (g : Globals) (p : ℕ)
    → is_translated (tcp_hit_lan2wan f now b g p).verdict ≡ true
    → (tcp_hit_lan2wan f now b g p).buf ≡ to_wan b (g.table.entry p)
unfolding tcp_hit_lan2wan checked_lan2wan set_flags set_entry to_wan
hit_sent f now b g p done = ground arith

hit_received :
    (f : State) (now : ℕ) (b : Bytes) (g : Globals) (p : ℕ)
    → is_translated (tcp_hit_wan2lan f now b g p).verdict ≡ true
    → (tcp_hit_wan2lan f now b g p).buf ≡ to_lan b (g.table.entry p)
unfolding tcp_hit_wan2lan checked_wan2lan set_flags set_entry to_lan
hit_received f now b g p done = ground arith

pub tcp_sent :
    (c : Config) (now : ℕ) (b : Bytes) (size : ℕ) (g : Globals)
    → ip_p b 0 ≡ ipproto_tcp
    → is_translated (lan2wan_alias c now b size g).verdict ≡ true
    → (p : ℕ) × (find_l2w g.table (lan_probe (ip_p b 0) (load16 b (sport_at (l4 b 0))) (ip_src b 0))
        ≡ some p)
      × ((lan2wan_alias c now b size g).buf ≡ to_wan b (g.table.entry p))
unfolding lan2wan_alias tcp_lan2wan
tcp_sent c now b size g tcp done =
    elim (Option-cases
      (find_l2w g.table (lan_probe (ip_p b 0) (load16 b (sport_at (l4 b 0))) (ip_src b 0)))) [
        | inl n ↦ ground (arith, n, tcp)
        | inr (p, e) ↦ (p, e, ground (arith, e, tcp, hit_sent (g.table.entry p).flags now b g p))
      ]

pub tcp_received :
    (c : Config) (now : ℕ) (b : Bytes) (size : ℕ) (g : Globals) (p : ℕ)
    → ip_p b 0 ≡ ipproto_tcp
    → is_translated (wan2lan_alias c now b size g).verdict ≡ true
    → find_w2l g.table (wan_probe (ip_p b 0) (load16 b (dport_at (l4 b 0))) (ip_dst b 0)) ≡ some p
    → (wan2lan_alias c now b size g).buf ≡ to_lan b (g.table.entry p)
unfolding wan2lan_alias tcp_wan2lan
tcp_received c now b size g p tcp done e =
    ground (arith, e, tcp, hit_received (g.table.entry p).flags now b g p)
