-- ===== src/Divert/Told.antt =====
-- src/divert.h: the thread puts only blocks into the ring that the sender knows.
use natporte.Base.{
  ℕ, refl, subst, Option, some, none, Bytes, inl, inr, Option-cases, Bool-cases, arith,
}
use natporte.Base.Int.{pos}
use natporte.Codes.{
  Verdict, through, reset_table, del_table, from_me, to_me, do_alias, no_table, too_short, do_drop,
  not_support, too_big,
}
use natporte.Filter.{Config}
use natporte.Node.{Node}
use natporte.Alias.{other_if_check}
use natporte.Alias.Wan2lan.{wan2lan_alias}
use natporte.Alias.Lan2wan.{lan2wan_alias}
use natporte.Fragment.{mk_fn_packet}
use natporte.Ring.{Slot, ring_push}
use natporte.Ring.Inv.{contents, capacity, IsValid}
use natporte.Ring.Refine.{ring_push_refines, message}
use natporte.System.{System, Payload, exits, Kernel, Answer, Sin, Datagram, send_packet, is_ok}
use natporte.System.Events.{timer_event_delete_for_node}
use natporte.System.Frame.{queues, >>=-Frames, send_packet-Frames, delete_for_node-Frames}
use natporte.System.Told.{
  IsTold, Flagged, HeldFlagged, AllFlagged, Tells, Frames-Tells, pushed-AllFlagged,
}
use natporte.Divert.{
  DivertArgs, Side, lan, wan, other, side_of, block, act, divert_packet, divert_step, divert_push,
  entry_of, request_block, release_block, ask_pool, outward,
}

-- What is queued for a block with known flags has these flags.
message-Flagged :
    (fresh : Bytes) (b : Option Payload) (size o : ℕ)
    → Flagged o
    → Flagged (message (block fresh) b size o).opaque
message-Flagged fresh none size o h = h
message-Flagged fresh (some b) size o h = ground (arith, h)

ring-AllFlagged :
    (fresh : Bytes) (r : Slot Payload) (s : System)
    → IsValid s.h_send
    → AllFlagged (contents s.h_send)
    → Flagged r.opaque
    → AllFlagged (contents (ring_push (block fresh) s.h_send r.buffer r.size r.opaque).1)
ring-AllFlagged fresh r s v a h =
    let (status, ring) = ring_push (block fresh) s.h_send r.buffer r.size r.opaque in
    let pushed = ring_push_refines (block fresh) s.h_send r.buffer r.size r.opaque v in
    pushed-AllFlagged (capacity s.h_send) (contents s.h_send)
      (message (block fresh) r.buffer r.size r.opaque) status (contents ring) pushed.0 a
      (message-Flagged fresh r.buffer r.size r.opaque h)

push-IsTold :
    (fresh : Bytes) (r : Slot Payload) (s : System)
    → IsTold (queues s)
    → Flagged r.opaque
    → IsTold (queues (divert_push fresh r s))
unfolding divert_push
push-IsTold fresh r s t h = record {
  send = (ring_push_refines (block fresh) s.h_send r.buffer r.size r.opaque t.send).1.0;
  recv = t.recv;
  flagged = ring-AllFlagged fresh r s t.send t.flagged h;
  divert = elim (Bool-cases (is_ok (ring_push (block fresh) s.h_send r.buffer r.size r.opaque).0)) [
    | inl k ↦ rw k tt
    | inr k ↦ rw k h
  ];
  timer = t.timer;
  told = t.told;
  held = t.held;
}

ask-IsTold :
    (fresh : Bytes) (side : Side) (b : Bytes) (size : ℕ) (s : System)
    → IsTold (queues s)
    → IsTold (queues (ask_pool fresh side b size s))
unfolding ask_pool
ask-IsTold fresh lan b size s t = record {
  send =
      (let r = request_block b size in
        (ring_push_refines (block fresh) s.h_send r.buffer r.size r.opaque t.send).1.0);
  recv = t.recv;
  flagged = ring-AllFlagged fresh (request_block b size) s t.send t.flagged (inl refl);
  divert = t.divert;
  timer = t.timer;
  told = t.told;
  held = t.held;
}
ask-IsTold fresh wan b size s t = t
ask-IsTold fresh other b size s t = t

sends : (a : Answer) (d : Datagram) (s : System) → IsTold (queues s) → Tells (send_packet a d s)
sends a d s t =
    Frames-Tells (queues s) (send_packet a d s) (send_packet-Frames (queues s) a d s refl) t

module _ (k : Kernel) (c : Config) (n : Node) (fresh : Bytes) where
  act-Tells :
      (side : Side) (sin : Sin) (verdict : Verdict) (b : Bytes) (size : ℕ) (s : System)
      → IsTold (queues s)
      → Tells (act k c n fresh side sin verdict b size s)
  unfolding act
  act-Tells side sin no_table b size s t = ask-IsTold fresh side b size s t
  act-Tells side sin too_big b size s t = elim (Option-cases (mk_fn_packet c s.fn_id b size)) [
    | inl lost ↦ rw (lost, Tells, act) tt
    | inr (r, made) ↦ rw (made, Tells, act) (sends k.sendto _ (record s { fn_id = r.id }) t)
  ]
  act-Tells side sin reset_table b size s t =
      push-IsTold fresh (release_block b size) s t (inr (inl refl))
  act-Tells side sin del_table b size s t =
      elim (Option-cases (entry_of side b size n s.globals.table)) [
        | inl lost ↦ rw (lost, Tells, act) t
        | inr (p, found) ↦
            rw (found, Tells, act)
              (Frames-Tells (queues s) _
                (>>=-Frames (queues s) (timer_event_delete_for_node k.kevent p (pos 400) s)
                  (send_packet k.sendto (record { buf = b; size = size; sin = outward sin }))
                  (delete_for_node-Frames (queues s) k.kevent p (pos 400) s refl)
                  (send_packet-Frames (queues s) k.sendto
                    (record { buf = b; size = size; sin = outward sin })))
                t)
      ]
  act-Tells side sin do_alias b size s t = sends k.sendto _ s t
  act-Tells side sin too_short b size s t = t
  act-Tells side sin do_drop b size s t = t
  act-Tells side sin not_support b size s t = sends k.sendto _ s t
  act-Tells side sin to_me b size s t = sends k.sendto _ s t
  act-Tells side sin from_me b size s t = sends k.sendto _ s t
  act-Tells side sin through b size s t = t

  packet-Tells :
      (now : ℕ) (side : Side) (d : Datagram) (s : System)
      → IsTold (queues s)
      → Tells (divert_packet k c now n fresh side d s)
  unfolding divert_packet
  packet-Tells now lan d s t =
      let r = lan2wan_alias c now d.buf d.size s.globals in
      act-Tells lan d.sin r.verdict r.buf d.size (record s { globals = r.globals }) t
  packet-Tells now wan d s t =
      let r = wan2lan_alias c now d.buf d.size s.globals in
      act-Tells wan d.sin r.verdict r.buf d.size (record s { globals = r.globals }) t
  packet-Tells now other d s t =
      sends k.sendto _ (record s { globals = (other_if_check d.buf s.globals).globals }) t

  pub divert_step-Tells :
      (a : DivertArgs) (now : ℕ) (received : Option Datagram) (s : System)
      → IsTold (queues s)
      → Tells (divert_step k c a now n fresh received s)
  unfolding divert_step
  divert_step-Tells a now received s t = elim (Option-cases s.divert) [
    | inl free ↦ rw (free, Tells, divert_step) (taken received)
    | inr (r, held) ↦
        rw (held, Tells, divert_step) (push-IsTold fresh r s t (subst HeldFlagged held t.divert))
  ]
    where
      taken :
          (received : Option Datagram)
          → Tells (elim received [
            | none ↦ exits
            | some d ↦ divert_packet k c now n fresh (side_of a d.sin.ifname) d s
          ])
      taken none = tt
      taken (some d) = packet-Tells now (side_of a d.sin.ifname) d s t
