-- ===== src/Divert.antt =====
-- src/divert.h: `loop_divert`, the thread that takes packets from the divert socket, translates
-- them and sends them on. The Makefile sets WAIT_TIME_DELETE.
pub mod Release
pub mod Laws
pub mod Keeps
pub mod Told
pub mod Ends
pub mod Close
mod Examples
use natporte.Base.{
  ℕ, ◌==◌, ltb, if◌then◌else◌, ◌||◌, bit_and, bit_or, Option, none, some, Bytes, load16, store16,
  htons,
}
use natporte.Base.Int.{pos}
use natporte.Codes.{
  Verdict, through, reset_table, del_table, from_me, to_me, do_alias, no_table, too_short, do_drop,
  not_support, too_big,
}
use natporte.Filter.{Config, has_df}
use natporte.Node.{Node, mk_node, var_lan, var_wan}
use natporte.Table.{Table, find_l2w, find_w2l}
use natporte.Ring.{Slot, ring_push}
use natporte.Alias.{Globals, other_if_check}
use natporte.Alias.Wan2lan.{wan2lan_alias}
use natporte.Alias.Lan2wan.{lan2wan_alias}
use natporte.Fragment.{copy_bytes, mk_fn_packet}
use natporte.System.{
  ap_send_req, ap_send_rel, ap_addrpool, Payload, packet, entry, Outcome, done, exits, ◌>>=◌,
  Kernel, Sin, Datagram, System, send_packet, is_ok,
}
use natporte.System.Events.{timer_event_delete_for_node}

-- `struct pth_divert_args`, less the socket.
pub record DivertArgs : Type 0 where
  pub lan_if_num : ℕ
  pub wan_if_num : ℕ

-- Where a packet comes from, by the name of its interface.
pub data Side : Type 0 where
  lan wan other : Side

unfoldable pub side_of : DivertArgs → ℕ → Side
side_of a ifname =
    if ifname == a.lan_if_num then lan else if ifname == a.wan_if_num then wan else other

-- `malloc(size)`, which gives `fresh`, and `memcpy`. Pointers to entries are not copied.
unfoldable pub block : Bytes → Payload → ℕ → Payload
unfolding copy_bytes
block fresh (packet b) size = packet (copy_bytes fresh 0 b 0 size)
block fresh (entry p) size = entry p

-- `sin.sin_addr.s_addr = INADDR_ANY`: the packet goes out.
abbrev pub outward : Sin → Sin
outward sin = record sin { addr = 0 }

-- The DF bit of a packet that is sent on, under `opt_nagete_df`.
unfoldable pub clear_df : Config → Bytes → ℕ → Bytes
clear_df c b size =
    if c.opt_nagete_df
    then if has_df b 0 || ltb c.wan_if_mtu size
      then store16 b 6 (bit_and (load16 b 6) (htons 0xbfff))
      else b
    else b

-- The entry of a translated packet, looked up by its new end. `n` is the node on the stack.
unfoldable pub entry_of : Side → Bytes → ℕ → Node → Table → Option ℕ
unfolding mk_node find_l2w find_w2l var_lan var_wan
entry_of lan b size n t =
    let n = (mk_node b size n).1 in
    let n = record n { wan = n.lan } in find_w2l t (record n { w2l_key = var_wan n })
entry_of wan b size n t =
    let n = (mk_node b size n).1 in
    let n = record n { lan = n.wan } in find_l2w t (record n { l2w_key = var_lan n })
entry_of other b size n t = none

-- One try to push the block that the thread holds; it keeps trying until RING_OK.
unfoldable pub divert_push : Bytes → Slot Payload → System → System
unfolding ring_push block is_ok
divert_push fresh r s =
    let (status, h) = ring_push (block fresh) s.h_send r.buffer r.size r.opaque in
    record s { h_send = h; divert = if is_ok status then none else some r }

abbrev pub request_block : Bytes → ℕ → Slot Payload
request_block b size = record {
  buffer = some (packet b);
  size = size;
  opaque = bit_or ap_send_req ap_addrpool;
}

abbrev pub release_block : Bytes → ℕ → Slot Payload
release_block b size = record {
  buffer = some (packet b);
  size = size;
  opaque = bit_or ap_send_rel ap_addrpool;
}

-- A packet without an entry: the pool is asked from the LAN side, and a full ring drops it.
unfoldable pub ask_pool : Bytes → Side → Bytes → ℕ → System → System
unfolding ring_push block
ask_pool fresh lan b size s =
    let r = request_block b size in
    let (status, h) = ring_push (block fresh) s.h_send r.buffer r.size r.opaque in
    record s { h_send = h }
ask_pool fresh side b size s = s

-- What becomes of the packet `b` after its translation with this verdict.
unfoldable pub act :
    Kernel → Config → Node → Bytes → Side → Sin → Verdict → Bytes → ℕ → System → Outcome System
unfolding ask_pool mk_fn_packet send_packet divert_push entry_of timer_event_delete_for_node
    clear_df
act k c n fresh side sin no_table b size s = done (ask_pool fresh side b size s)
act k c n fresh side sin too_big b size s = elim (mk_fn_packet c s.fn_id b size) [
  | none ↦ exits
  | some r ↦
      send_packet k.sendto (record { buf = r.buf; size = r.size; sin = outward sin })
        (record s { fn_id = r.id })
]
act k c n fresh side sin reset_table b size s = done (divert_push fresh (release_block b size) s)
act k c n fresh side sin del_table b size s = elim (entry_of side b size n s.globals.table) [
  | none ↦ done s
  | some p ↦
      timer_event_delete_for_node k.kevent p (pos 400) s
      >>= send_packet k.sendto (record { buf = b; size = size; sin = outward sin })
]
act k c n fresh side sin do_alias b size s =
    send_packet k.sendto (record { buf = clear_df c b size; size = size; sin = outward sin }) s
act k c n fresh side sin too_short b size s = done s
act k c n fresh side sin do_drop b size s = done s
act k c n fresh side sin not_support b size s =
    send_packet k.sendto (record { buf = b; size = size; sin = sin }) s
act k c n fresh side sin to_me b size s =
    send_packet k.sendto (record { buf = b; size = size; sin = sin }) s
act k c n fresh side sin from_me b size s =
    send_packet k.sendto (record { buf = b; size = size; sin = sin }) s
act k c n fresh side sin through b size s = done s

-- A packet from one of the two interfaces, or from another.
unfoldable pub divert_packet :
    Kernel → Config → ℕ → Node → Bytes → Side → Datagram → System → Outcome System
unfolding act send_packet
divert_packet k c now n fresh lan d s =
    let r = lan2wan_alias c now d.buf d.size s.globals in
    act k c n fresh lan d.sin r.verdict r.buf d.size (record s { globals = r.globals })
divert_packet k c now n fresh wan d s =
    let r = wan2lan_alias c now d.buf d.size s.globals in
    act k c n fresh wan d.sin r.verdict r.buf d.size (record s { globals = r.globals })
divert_packet k c now n fresh other d s =
    let r = other_if_check d.buf s.globals in
    send_packet k.sendto (record { buf = r.buf; size = d.size; sin = d.sin })
      (record s { globals = r.globals })

-- One step of the thread: another try to push, or what `recvfrom` gives, where `none` is its
-- failure.
unfoldable pub divert_step :
    Kernel → Config → DivertArgs → ℕ → Node → Bytes → Option Datagram → System → Outcome System
unfolding divert_packet divert_push side_of
divert_step k c a now n fresh received s = elim s.divert [
  | some r ↦ done (divert_push fresh r s)
  | none ↦ elim received [
    | none ↦ exits
    | some d ↦ divert_packet k c now n fresh (side_of a d.sin.ifname) d s
  ]
]
