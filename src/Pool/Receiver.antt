-- ===== src/Pool/Receiver.antt =====
-- src/addrpool.h: `addrpool_receiver`, one function for each message of the pool. Built without
-- OPT_HOSTID.
use natporte.Base.{
  ℕ, ◌==◌, ltb, if◌then◌else◌, ◌&&◌, ◌||◌, Bool, true, Option, none, some, Bytes, load16, store16,
  bit_and, htons, ◌∷◌,
}
use natporte.Codes.{from_lan2wan}
use natporte.TcpState.{established, syn_sent}
use natporte.Filter.{Config, has_df, chk_selfaddr}
use natporte.Node.{Node, timer_loop, var_lan, var_wan}
use natporte.Packet.{ip_p, ip_src, ip_dst, ipproto_tcp, ipproto_udp}
use natporte.Table.{Table, set_entry, s_insert, s_delete_for_point, s_delete_for_value}
use natporte.Table.Live.{is_live}
use natporte.Ring.{ring_pop_condblock}
use natporte.Alias.{Aliased, tcp_reset_alias}
use natporte.Alias.Wan2lan.{wan2lan_alias}
use natporte.Alias.Lan2wan.{lan2wan_alias, is_do_alias}
use natporte.System.{
  ap_rel_l2w, ap_rel_w2l, ap_timeout, Payload, packet, entry, Outcome, done, waits, exits, fault,
  ◌>>=◌, Ends, Kernel, System, send_packet,
}
use natporte.System.Events.{
  add_timer_event_tcp, add_timer_event_udp, del_timer_event_tcp, del_timer_event_udp,
}
use natporte.Pool.{
  Message, request_ack, request_discard, release_ack, release_discard, initialize, other, zero_node,
  with_members, pool_sin,
}
use natporte.Pool.Sender.{flags_of}

-- The block that the receiver takes from `h_recv`: its payload, size and flags.
unfoldable pub take_block : System → (Payload → ℕ → ℕ → System → Outcome System) → Outcome System
unfolding ring_pop_condblock
take_block s next = elim (ring_pop_condblock s.h_recv true) [
  | none ↦ waits
  | some (status, out, h) ↦ elim out.buffer [
    | none ↦ done (record s { h_recv = h })
    | some b ↦ next b out.size (flags_of out.opaque) (record s { h_recv = h })
  ]
]

abbrev pub with_table : System → Table → System
with_table s t = record s { globals = record s.globals { table = t } }

-- The entry that the pool has granted, made at the time `now`.
unfoldable pub granted : ℕ → Ends → Node
unfolding var_lan var_wan
granted now e =
    let n = record (with_members zero_node e) {
      ctime = now;
      atime = now;
      flags = if e.protocol == ipproto_tcp then syn_sent else established;
      timer_flags = timer_loop;
    } in
    record n { l2w_key = var_lan n; w2l_key = var_wan n }

-- The DF bit of a packet whose request was granted.
unfoldable pub clear_df_and : Config → Bytes → ℕ → Bytes
clear_df_and c b size =
    if c.opt_nagete_df
    then if has_df b 0 && ltb c.wan_if_mtu size
      then store16 b 6 (bit_and (load16 b 6) (htons 0xbfff))
      else b
    else b

-- A packet from the LAN is translated by its new entry and sent.
unfoldable pub send_granted : Kernel → Config → ℕ → Bytes → ℕ → System → Outcome System
unfolding is_do_alias clear_df_and send_packet
send_granted k c now b size s =
    let r = lan2wan_alias c now b size s.globals in
    let s = record s { globals = r.globals } in
    if is_do_alias r.verdict
    then send_packet k.sendto
        (record { buf = clear_df_and c r.buf size; size = size; sin = pool_sin }) s
    else done s

-- A datagram for the translator itself is first translated as if from the WAN.
unfoldable pub hairpin : Kernel → Config → ℕ → Bytes → ℕ → System → Outcome System
unfolding send_granted is_do_alias
hairpin k c now b size s =
    if chk_selfaddr c (ip_src b 0) (ip_dst b 0) from_lan2wan
    then (let r = wan2lan_alias c now b size s.globals in
        let s = record s { globals = r.globals } in
        if is_do_alias r.verdict then send_granted k c now r.buf size s else done s)
    else send_granted k c now b size s

-- After the insertion: the timer of the entry, and the packet that asked for it.
unfoldable pub start_entry : Kernel → Config → ℕ → Ends → Node → Bytes → ℕ → System → Outcome System
unfolding add_timer_event_tcp add_timer_event_udp send_granted hairpin
start_entry k c now e n b size s =
    if e.protocol == ipproto_tcp
    then add_timer_event_tcp k.kevent n.l2w_key s >>= send_granted k c now b size
    else if e.protocol == ipproto_udp
    then add_timer_event_udp k.kevent n.l2w_key s >>= hairpin k c now b size
    else send_granted k c now b size s

-- "request_ack": the entry is made behind the pointer `p`, which `malloc` gives. If it does not
-- fit into the table, packet and entry are freed.
unfoldable pub on_request_ack :
    Kernel → Config → ℕ → ℕ → Ends → Payload → ℕ → ℕ → System → Outcome System
unfolding granted set_entry s_insert start_entry
on_request_ack k c now p e (entry q) size flags s = fault
on_request_ack k c now p e (packet b) size flags s =
    let n = granted now e in
    elim (s_insert (set_entry s.globals.table p n) p) [
      | none ↦ fault
      | some (some q, t) ↦ done (with_table s t)
      | some (none, t) ↦ start_entry k c now e n b size (with_table s t)
    ]

-- `free` of a block. An entry that the table has still is left in its trees; one that is freed
-- already is a fault.
unfoldable pub free_block : Payload → System → Outcome System
unfolding is_live
free_block (packet b) s = done s
free_block (entry p) s =
    if is_live s.globals.table s.dangling p
    then done (record s { dangling = p ∷ s.dangling })
    else fault

-- "request_discard": a TCP segment may be answered by a reset, for which the block is read as a
-- packet.
unfoldable pub on_request_discard : Kernel → Bool → Payload → ℕ → ℕ → System → Outcome System
unfolding tcp_reset_alias send_packet free_block
on_request_discard k opt_reset (packet b) size flags s =
    if opt_reset && ip_p b 0 == ipproto_tcp
    then send_packet k.sendto (record { buf = tcp_reset_alias b size; size = size; sin = pool_sin })
        s
    else done s
on_request_discard k opt_reset (entry p) size flags s =
    if opt_reset then fault else free_block (entry p) s

-- The last packet of a connection goes through the translation once more.
unfoldable pub translate_last : Config → ℕ → ℕ → Bytes → ℕ → System → Option Aliased
translate_last c now flags b size s =
    if flags == ap_rel_l2w
    then some (lan2wan_alias c now b size s.globals)
    else if flags == ap_rel_w2l
    then some (wan2lan_alias c now b size s.globals)
    else none

-- The entry with both ends of `n` is deleted, which has to be there, and its timer with it.
unfoldable pub delete_released : Bool → Node → System → Outcome System
unfolding s_delete_for_value del_timer_event_tcp del_timer_event_udp
delete_released k n s =
    if n.protocol == ipproto_tcp || n.protocol == ipproto_udp
    then elim (s_delete_for_value s.globals.table n) [
      | none ↦ fault
      | some (none, t) ↦ exits
      | some (some p, t) ↦
          let ident = (t.entry p).l2w_key in
          if n.protocol == ipproto_tcp
          then del_timer_event_tcp k ident (with_table s t)
          else del_timer_event_udp k ident (with_table s t)
    ]
    else done s

-- The deletion, and the last packet is sent.
unfoldable pub finish_release : Kernel → Node → Bytes → ℕ → System → Outcome System
unfolding delete_released send_packet
finish_release k n b size s =
    delete_released k.kevent n s
    >>= send_packet k.sendto (record { buf = b; size = size; sin = pool_sin })

-- The node that "release_ack" compares with.
unfoldable pub released_node : ℕ → Ends → Node
unfolding var_lan var_wan
released_node now e =
    let n = record (with_members zero_node e) { ctime = now; atime = now } in
    record n { l2w_key = var_lan n; w2l_key = var_wan n }

-- "release_ack": an entry that has timed out leaves the table; else the last packet is translated
-- and sent, and its entry deleted by the ends in the message. To delete an entry that is freed
-- already is a fault.
unfoldable pub on_release_ack :
    Kernel → Config → ℕ → Ends → Payload → ℕ → ℕ → System → Outcome System
unfolding is_live s_delete_for_point released_node translate_last finish_release is_do_alias
on_release_ack k c now e (entry p) size flags s =
    if flags == ap_timeout && is_live s.globals.table s.dangling p
    then elim (s_delete_for_point s.globals.table p) [
      | none ↦ fault
      | some (none, t) ↦ exits
      | some (some q, t) ↦ done (with_table s t)
    ]
    else fault
on_release_ack k c now e (packet b) size flags s =
    if flags == ap_timeout then fault else elim (translate_last c now flags b size s) [
      | none ↦ finish_release k (released_node now e) b size s
      | some r ↦
          let s = record s { globals = r.globals } in
          if is_do_alias r.verdict
          then finish_release k (released_node now e) r.buf size s
          else done s
    ]

-- "release_discard": the block is freed.
unfoldable pub on_release_discard : Payload → ℕ → ℕ → System → Outcome System
unfolding free_block
on_release_discard b size flags s = free_block b s

-- One message. `p` is what `malloc` gives for it.
unfoldable pub receive : Kernel → Config → ℕ → Bool → ℕ → Message → System → Outcome System
unfolding take_block on_request_ack on_request_discard on_release_ack on_release_discard
receive k c now opt_reset p (request_ack e) s = take_block s (on_request_ack k c now p e)
receive k c now opt_reset p request_discard s = take_block s (on_request_discard k opt_reset)
receive k c now opt_reset p (release_ack e) s = take_block s (on_release_ack k c now e)
receive k c now opt_reset p release_discard s = take_block s on_release_discard
receive k c now opt_reset p (initialize tcp udp) s =
    done (record s { timeout_tcp = tcp; timeout_udp = udp })
receive k c now opt_reset p other s = done s
