-- ===== src/Alias/Reply.antt =====
-- src/alias.h: a flow from the LAN and its reply from the WAN, through the table.
use natporte.Base.{ℕ, ◌≤◌, ◌≡◌, sym, ◌∙◌, Bytes, IsBytes, load16, true, false}
use natporte.Codes.{do_alias, from_lan2wan}
use natporte.Filter.{Config, chk_selfaddr}
use natporte.Packet.{ip_hl, ip_p, ip_src, ip_dst, l4, sport_at, dport_at, ipproto_tcp, ipproto_udp}
use natporte.Table.Inv.{IsTable}
use natporte.Alias.{Globals, Aliased}
use natporte.Alias.Wan2lan.{wan2lan_alias}
use natporte.Alias.Lan2wan.{lan2wan_alias}
use natporte.Alias.Untouched.{is_translated}
use natporte.Alias.Entries.{lan2wan_alias-Keeps}
use natporte.Alias.Flow.{Passes, udp_sent, udp_received, returns, delivered, tcp_sent, tcp_received}

-- A datagram from the LAN that is translated, and not for the translator itself, opens the way
-- back: in a good table, with IP headers of at least 20 bytes, a datagram from the WAN to the
-- address and port that the translated one came from, which passes the tests before the lookup,
-- is translated, and goes to the address and port that sent the first.
pub udp-reply :
    (c : Config) (now later : ℕ) (b reply : Bytes) (size reply_size : ℕ) (g : Globals)
    → IsBytes b
    → IsTable g.table
    → 5 ≤ ip_hl b 0
    → 5 ≤ ip_hl reply 0
    → ip_p b 0 ≡ ipproto_udp
    → ip_p reply 0 ≡ ipproto_udp
    → chk_selfaddr c (ip_src b 0) (ip_dst b 0) from_lan2wan ≡ false
    → (lan2wan_alias c now b size g).verdict ≡ do_alias
    → Passes c reply reply_size
    → ip_dst reply 0 ≡ ip_src (lan2wan_alias c now b size g).buf 0
    → load16 reply (dport_at (l4 reply 0))
      ≡ load16 (lan2wan_alias c now b size g).buf (sport_at (l4 b 0))
    → let back = wan2lan_alias c later reply reply_size (lan2wan_alias c now b size g).globals in
      (back.verdict ≡ do_alias)
      × (ip_dst back.buf 0 ≡ ip_src b 0)
      × (load16 back.buf (dport_at (l4 reply 0)) ≡ load16 b (sport_at (l4 b 0)))
udp-reply c now later b reply size reply_size g bytes table hl reply_hl udp reply_udp self sent
      passes to_ip to_port =
    let (p, found, made) = udp_sent c now b size g udp self sent in
    let out : Aliased = lan2wan_alias c now b size g in
    let (hit, entry, lan) =
      returns b reply out.buf g out.globals p bytes table (lan2wan_alias-Keeps c now b size g) hl
        (reply_udp ∙ sym udp) found made to_ip to_port in
    let arrived = udp_received c later reply reply_size out.globals p reply_udp passes hit in
    let there = delivered reply _ (out.globals.table.entry p) _ reply_hl entry lan arrived.1 in
    (arrived.0, there.0, there.1)

-- A TCP segment from the LAN that is translated opens the way back: in a good table, with IP
-- headers of at least 20 bytes, a segment from the WAN to the address and port that the
-- translated one came from goes, if it is translated, to the address and port that sent the
-- first.
pub tcp-reply :
    (c : Config) (now later : ℕ) (b reply : Bytes) (size reply_size : ℕ) (g : Globals)
    → IsBytes b
    → IsTable g.table
    → 5 ≤ ip_hl b 0
    → 5 ≤ ip_hl reply 0
    → ip_p b 0 ≡ ipproto_tcp
    → ip_p reply 0 ≡ ipproto_tcp
    → is_translated (lan2wan_alias c now b size g).verdict ≡ true
    → ip_dst reply 0 ≡ ip_src (lan2wan_alias c now b size g).buf 0
    → load16 reply (dport_at (l4 reply 0))
      ≡ load16 (lan2wan_alias c now b size g).buf (sport_at (l4 b 0))
    → is_translated
        (wan2lan_alias c later reply reply_size (lan2wan_alias c now b size g).globals).verdict
      ≡ true
    → let back = wan2lan_alias c later reply reply_size (lan2wan_alias c now b size g).globals in
      (ip_dst back.buf 0 ≡ ip_src b 0)
      × (load16 back.buf (dport_at (l4 reply 0)) ≡ load16 b (sport_at (l4 b 0)))
tcp-reply c now later b reply size reply_size g bytes table hl reply_hl tcp reply_tcp sent to_ip
      to_port taken =
    let (p, found, made) = tcp_sent c now b size g tcp sent in
    let out : Aliased = lan2wan_alias c now b size g in
    let (hit, entry, lan) =
      returns b reply out.buf g out.globals p bytes table (lan2wan_alias-Keeps c now b size g) hl
        (reply_tcp ∙ sym tcp) found made to_ip to_port in
    delivered reply _ (out.globals.table.entry p) _ reply_hl entry lan
      (tcp_received c later reply reply_size out.globals p reply_tcp taken hit)
