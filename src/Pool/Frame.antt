-- ===== src/Pool/Frame.antt =====
-- src/addrpool.h: what the receiver does with a block leaves the rings as they are.
use natporte.Base.{
  true, false, ℕ, Bool, ◌≡◌, some, none, inl, inr, Option, Bool-cases, ◌==◌, ◌||◌, if◌then◌else◌,
  Bytes, arith,
}
use natporte.Packet.{ipproto_tcp, ipproto_udp}
use natporte.Filter.{Config}
use natporte.Node.{Node}
use natporte.Table.{Table, s_insert, s_delete_for_value, s_delete_for_point, set_entry}
use natporte.Alias.Wan2lan.{wan2lan_alias}
use natporte.Alias.Lan2wan.{lan2wan_alias}
use natporte.System.{
  System, Payload, packet, entry, done, exits, fault, Kernel, Ends, Datagram, ev_delete,
  send_packet,
}
use natporte.System.Frame.{Queues, queues, Frames, >>=-Frames, send_packet-Frames, kevent-Frames}
use natporte.System.Events.{
  add_timer_event_tcp, add_timer_event_udp, del_timer_event_tcp, del_timer_event_udp,
}
use natporte.Pool.{pool_sin}
use natporte.Pool.Receiver.{
  with_table, granted, send_granted, hairpin, start_entry, on_request_ack, on_request_discard,
  on_release_discard, free_block, translate_last, delete_released, finish_release, released_node,
  on_release_ack,
}

free-Frames : (q : Queues) (b : Payload) (s : System) → queues s ≡ q → Frames q (free_block b s)
unfolding free_block
free-Frames q (packet b) s h = h
free-Frames q (entry p) s h = ground (arith, h)

pub release_discard-Frames :
    (q : Queues) (b : Payload) (size flags : ℕ) (s : System)
    → queues s ≡ q
    → Frames q (on_release_discard b size flags s)
unfolding on_release_discard
release_discard-Frames q b size flags s h = free-Frames q b s h

module _ (k : Kernel) (c : Config) (now : ℕ) (q : Queues) where
  send-Frames :
      (b : Bytes) (size : ℕ) (s : System) → queues s ≡ q → Frames q (send_granted k c now b size s)
  unfolding send_granted
  send-Frames b size s h =
      let r = lan2wan_alias c now b size s.globals in
      ground (
        arith,
        h,
        λ (d : Datagram). send_packet-Frames q k.sendto d (record s { globals = r.globals }) h,
      )

  hairpin-Frames :
      (b : Bytes) (size : ℕ) (s : System) → queues s ≡ q → Frames q (hairpin k c now b size s)
  unfolding hairpin
  hairpin-Frames b size s h =
      let r = wan2lan_alias c now b size s.globals in
      ground (
        arith,
        h,
        send-Frames b size s h,
        send-Frames r.buf size (record s { globals = r.globals }) h,
      )

  start-Frames :
      (e : Ends) (n : Node) (b : Bytes) (size : ℕ) (s : System)
      → queues s ≡ q
      → Frames q (start_entry k c now e n b size s)
  unfolding start_entry add_timer_event_tcp add_timer_event_udp
  start-Frames e n b size s h = ground (
    arith,
    >>=-Frames q (add_timer_event_tcp k.kevent n.l2w_key s) (send_granted k c now b size)
        (kevent-Frames q k.kevent _ s h) (send-Frames b size),
    >>=-Frames q (add_timer_event_udp k.kevent n.l2w_key s) (hairpin k c now b size)
        (kevent-Frames q k.kevent _ s h) (hairpin-Frames b size),
    send-Frames b size s h,
  )

  pub request_ack-Frames :
      (p : ℕ) (e : Ends) (b : Payload) (size flags : ℕ) (s : System)
      → queues s ≡ q
      → Frames q (on_request_ack k c now p e b size flags s)
  unfolding on_request_ack
  request_ack-Frames p e (entry x) size flags s h = tt
  request_ack-Frames p e (packet b) size flags s h =
      go (s_insert (set_entry s.globals.table p (granted now e)) p)
    where
      go :
          (r : Option (Option ℕ × Table))
          → Frames q (elim r [
            | none ↦ fault
            | some (some x, u) ↦ done (with_table s u)
            | some (none, u) ↦ start_entry k c now e (granted now e) b size (with_table s u)
          ])
      go none = tt
      go (some (some x, u)) = h
      go (some (none, u)) = start-Frames e (granted now e) b size (with_table s u) h

  pub discard-Frames :
      (opt_reset : Bool) (b : Payload) (size flags : ℕ) (s : System)
      → queues s ≡ q
      → Frames q (on_request_discard k opt_reset b size flags s)
  unfolding on_request_discard
  discard-Frames true (entry p) size flags s h = tt
  discard-Frames false (entry p) size flags s h = free-Frames q (entry p) s h
  discard-Frames opt_reset (packet b) size flags s h =
      ground (arith, h, λ (d : Datagram). send_packet-Frames q k.sendto d s h)

  delete-Frames : (n : Node) (s : System) → queues s ≡ q → Frames q (delete_released k.kevent n s)
  unfolding delete_released del_timer_event_tcp del_timer_event_udp
  delete-Frames n s h = elim (Bool-cases (n.protocol == ipproto_tcp || n.protocol == ipproto_udp)) [
    | inl known ↦ rw (known, Frames, delete_released) (go (s_delete_for_value s.globals.table n))
    | inr unknown ↦ rw (unknown, Frames, delete_released) h
  ]
    where
      go :
          (r : Option (Option ℕ × Table))
          → Frames q (elim r [
            | none ↦ fault
            | some (none, u) ↦ exits
            | some (some p, u) ↦
                let ident = (u.entry p).l2w_key in
                if n.protocol == ipproto_tcp
                then del_timer_event_tcp k.kevent ident (with_table s u)
                else del_timer_event_udp k.kevent ident (with_table s u)
          ])
      go none = tt
      go (some (none, u)) = tt
      go (some (some p, u)) =
          ground
            (arith, kevent-Frames q k.kevent (ev_delete (u.entry p).l2w_key) (with_table s u) h)

  finish-Frames :
      (n : Node) (b : Bytes) (size : ℕ) (s : System)
      → queues s ≡ q
      → Frames q (finish_release k n b size s)
  unfolding finish_release
  finish-Frames n b size s h =
      >>=-Frames q (delete_released k.kevent n s)
        (send_packet k.sendto (record { buf = b; size = size; sin = pool_sin }))
        (delete-Frames n s h)
        (send_packet-Frames q k.sendto (record { buf = b; size = size; sin = pool_sin }))

  pub release_ack-Frames :
      (e : Ends) (b : Payload) (size flags : ℕ) (s : System)
      → queues s ≡ q
      → Frames q (on_release_ack k c now e b size flags s)
  unfolding on_release_ack translate_last
  release_ack-Frames e (entry p) size flags s h =
      ground (arith, go (s_delete_for_point s.globals.table p))
    where
      go :
          (r : Option (Option ℕ × Table))
          → Frames q (elim r [
            | none ↦ fault
            | some (none, t) ↦ exits
            | some (some x, t) ↦ done (with_table s t)
          ])
      go none = tt
      go (some (none, t)) = tt
      go (some (some x, t)) = h
  release_ack-Frames e (packet b) size flags s h =
      let out = lan2wan_alias c now b size s.globals in
      let back = wan2lan_alias c now b size s.globals in
      let n = released_node now e in
      ground (
        arith,
        h,
        finish-Frames n b size s h,
        finish-Frames n out.buf size (record s { globals = out.globals }) h,
        finish-Frames n back.buf size (record s { globals = back.globals }) h,
      )
