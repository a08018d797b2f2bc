-- ===== src/Pool/Sender.antt =====
-- src/addrpool.h: `addrpool_sender`, which takes blocks from `h_send`, tells the pool and queues
-- the blocks in `h_recv` for the answers.
use natporte.Base.{
  ℕ, ◌==◌, ◌&&◌, not, if◌then◌else◌, bit_and, Bool, true, Option, none, some, ◌∷◌, Bytes,
}
use natporte.Node.{Node, mk_node, var_lan, var_wan}
use natporte.Table.{Table, find_l2w, find_w2l}
use natporte.Table.Live.{is_live}
use natporte.Ring.{Slot, ring_s_push, ring_pop_condblock}
use natporte.System.{
  ap_low, ap_high, ap_send_req, ap_send_rel, ap_rel_l2w, ap_rel_w2l, ap_timeout, ap_addrpool,
  Payload, packet, entry, Outcome, done, waits, exits, fault, request, release, System, is_ok,
}
use natporte.Pool.{zero_node, ends_of}

-- The second switch: the text in `mesg` goes to the pool. An empty buffer sends nothing.
unfoldable pub notify : Bool → ℕ → System → Outcome System
notify k flags s =
    if bit_and flags ap_high == ap_addrpool
    then (if k
        then elim s.mesg [ none ↦ done s | some m ↦ done (record s { notices = m ∷ s.notices }) ]
        else exits)
    else done s

-- One try to push the block; after RING_OK the pool is told.
unfoldable pub sender_push : Bool → Slot Payload → ℕ → System → Outcome System
unfolding notify ring_s_push is_ok
sender_push k r flags s =
    let (status, h) = ring_s_push s.h_recv r in
    if is_ok status
    then notify k flags (record s { h_recv = h; sender = none })
    else done (record s { h_recv = h; sender = some (r, flags) })

-- `mk_node` on a zeroed node, and both keys.
unfoldable pub ends_in : Bytes → ℕ → Node
unfolding mk_node var_lan var_wan
ends_in b size =
    let n = (mk_node b size zero_node).1 in record n { l2w_key = var_lan n; w2l_key = var_wan n }

-- AP_SEND_REL: the entry of the packet, and the direction that it travels in. `none`: the error
-- path reads through the null `table`.
unfoldable pub released : Table → Node → Option (ℕ × ℕ)
unfolding find_l2w find_w2l
released t n = elim (find_l2w t n) [
  | some p ↦ some (p, ap_rel_l2w)
  | none ↦ elim (find_w2l t n) [ some p ↦ some (p, ap_rel_w2l) | none ↦ none ]
]

-- The first switch, for a block with a packet and for one with an entry, which is a fault to
-- read once it is freed.
unfoldable pub send_block : Bool → ℕ → Payload → ℕ → ℕ → System → Outcome System
unfolding mk_node ends_in released sender_push notify is_live
send_block k now (packet b) size flags s =
    let low = bit_and flags ap_low in
    if low == ap_send_req
    then sender_push k (record { buffer = some (packet b); size = size; opaque = 0 }) flags
        (record s { mesg = some (request now (ends_of (mk_node b size zero_node).1)) })
    else if low == ap_send_rel
    then elim (released s.globals.table (ends_in b size)) [
      | none ↦ fault
      | some (p, direction) ↦
          sender_push k (record { buffer = some (packet b); size = size; opaque = direction }) flags
            (record s { mesg = some (release now (ends_of (s.globals.table.entry p))) })
    ]
    else if low == ap_timeout
    then fault
    else notify k flags s
send_block k now (entry p) size flags s =
    let low = bit_and flags ap_low in
    if low == ap_timeout && not (is_live s.globals.table s.dangling p)
    then fault
    else if low == ap_timeout
    then sender_push k (record { buffer = some (entry p); size = size; opaque = ap_timeout }) flags
        (record s { mesg = some (release now (ends_of (s.globals.table.entry p))) })
    else if low == ap_send_req
    then fault
    else if low == ap_send_rel
    then fault
    else notify k flags s

-- What `opaque` holds after a pop that was asked for it.
abbrev pub flags_of : Option ℕ → ℕ
flags_of none = 0
flags_of (some flags) = flags

-- One step of the thread: another try to push, or the next block.
unfoldable pub sender_step : Bool → ℕ → System → Outcome System
unfolding sender_push send_block ring_pop_condblock
sender_step k now s = elim s.sender [
  | some (r, flags) ↦ sender_push k r flags s
  | none ↦ elim (ring_pop_condblock s.h_send true) [
    | none ↦ waits
    | some (status, out, h) ↦ elim out.buffer [
      | none ↦ done (record s { h_send = h })
      | some b ↦ send_block k now b out.size (flags_of out.opaque) (record s { h_send = h })
    ]
  ]
]
