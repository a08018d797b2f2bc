-- ===== src/Divert/Keeps.antt =====
-- src/divert.h: no step of the thread spoils the shared state.
use natporte.Base.{ℕ, Option, some, none, Bytes, inl, inr, Option-cases}
use natporte.Base.Int.{pos}
use natporte.Codes.{
  Verdict, through, reset_table, del_table, from_me, to_me, do_alias, no_table, too_short, do_drop,
  not_support, too_big,
}
use natporte.Filter.{Config}
use natporte.Node.{Node}
use natporte.Alias.{other_if_check}
use natporte.Alias.Wan2lan.{wan2lan_alias}
use natporte.Alias.Lan2wan.{lan2wan_alias}
use natporte.Alias.Entries.{alias-IsTable}
use natporte.Fragment.{mk_fn_packet}
use natporte.System.{System, exits, Kernel, Sin, Datagram, send_packet}
use natporte.System.Inv.{IsSystem}
use natporte.System.Events.{timer_event_delete_for_node}
use natporte.System.Preserves.{
  Preserves, >>=-Preserves, with-IsSystem, send_packet-Preserves,
  timer_event_delete_for_node-Preserves,
}
use natporte.Divert.{
  DivertArgs, Side, lan, wan, other, side_of, act, divert_packet, divert_step, entry_of,
  release_block, outward,
}
use natporte.Divert.Laws.{push-IsSystem, ask-IsSystem, other_if_check_table}

module _ (k : Kernel) (c : Config) (n : Node) (fresh : Bytes) where
  act-Preserves :
      (side : Side) (sin : Sin) (v : Verdict) (b : Bytes) (size : ℕ) (s : System)
      → IsSystem s
      → Preserves (act k c n fresh side sin v b size s)
  unfolding act
  act-Preserves side sin no_table b size s g = ask-IsSystem fresh side b size s g
  act-Preserves side sin too_big b size s g = elim (Option-cases (mk_fn_packet c s.fn_id b size)) [
    | inl lost ↦ rw (lost, Preserves, act) tt
    | inr (r, made) ↦
        rw (made, Preserves, act)
          (send_packet-Preserves k.sendto _ (record s { fn_id = r.id })
            (record { table = g.table; send = g.send; recv = g.recv; sound = g.sound }))
  ]
  act-Preserves side sin reset_table b size s g = push-IsSystem fresh (release_block b size) s g
  act-Preserves side sin del_table b size s g =
      elim (Option-cases (entry_of side b size n s.globals.table)) [
        | inl lost ↦ rw (lost, Preserves, act) g
        | inr (p, found) ↦
            rw (found, Preserves, act)
              (>>=-Preserves (timer_event_delete_for_node k.kevent p (pos 400) s)
                (send_packet k.sendto (record { buf = b; size = size; sin = outward sin }))
                (timer_event_delete_for_node-Preserves k.kevent p (pos 400) s g)
                (send_packet-Preserves k.sendto
                  (record { buf = b; size = size; sin = outward sin })))
      ]
  act-Preserves side sin do_alias b size s g = send_packet-Preserves k.sendto _ s g
  act-Preserves side sin too_short b size s g = g
  act-Preserves side sin do_drop b size s g = g
  act-Preserves side sin not_support b size s g = send_packet-Preserves k.sendto _ s g
  act-Preserves side sin to_me b size s g = send_packet-Preserves k.sendto _ s g
  act-Preserves side sin from_me b size s g = send_packet-Preserves k.sendto _ s g
  act-Preserves side sin through b size s g = g

  packet-Preserves :
      (now : ℕ) (side : Side) (d : Datagram) (s : System)
      → IsSystem s
      → Preserves (divert_packet k c now n fresh side d s)
  unfolding divert_packet
  packet-Preserves now lan d s v =
      let r = lan2wan_alias c now d.buf d.size s.globals in
      act-Preserves lan d.sin r.verdict r.buf d.size (record s { globals = r.globals })
        (with-IsSystem s r.globals (alias-IsTable c now d.buf d.size s.globals v.table).1 v)
  packet-Preserves now wan d s v =
      let r = wan2lan_alias c now d.buf d.size s.globals in
      act-Preserves wan d.sin r.verdict r.buf d.size (record s { globals = r.globals })
        (with-IsSystem s r.globals (alias-IsTable c now d.buf d.size s.globals v.table).0 v)
  packet-Preserves now other d s v =
      let r = other_if_check d.buf s.globals in
      send_packet-Preserves k.sendto _ (record s { globals = r.globals })
        (with-IsSystem s r.globals (rw (other_if_check_table d.buf s.globals) v.table) v)

  pub divert_step-Preserves :
      (a : DivertArgs) (now : ℕ) (received : Option Datagram) (s : System)
      → IsSystem s
      → Preserves (divert_step k c a now n fresh received s)
  unfolding divert_step
  divert_step-Preserves a now received s v = elim (Option-cases s.divert) [
    | inl free ↦ rw (free, Preserves, divert_step) (taken received)
    | inr (r, held) ↦ rw (held, Preserves, divert_step) (push-IsSystem fresh r s v)
  ]
    where
      taken :
          (received : Option Datagram)
          → Preserves (elim received [
            | none ↦ exits
            | some d ↦ divert_packet k c now n fresh (side_of a d.sin.ifname) d s
          ])
      taken none = tt
      taken (some d) = packet-Preserves now (side_of a d.sin.ifname) d s v
