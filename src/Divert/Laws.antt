-- ===== src/Divert/Laws.antt =====
-- src/divert.h: each step of the thread comes to its end and keeps the shared state good.
use natporte.Base.{
  ℕ, ◌≡◌, ◌≢◌, refl, ◌∙◌, List, [], ◌∷◌, some, true, Bytes, inl, inr, Option-cases, arith,
}
use natporte.Base.Int.{pos}
use natporte.Codes.{
  Verdict, through, reset_table, del_table, from_me, to_me, do_alias, no_table, too_short, do_drop,
  not_support, too_big,
}
use natporte.Filter.{Config}
use natporte.Node.{Node}
use natporte.Ring.{Slot}
use natporte.Ring.Refine.{ring_push_refines}
use natporte.Alias.{Globals, other_if_check}
use natporte.Alias.Wan2lan.{wan2lan_alias}
use natporte.Alias.Lan2wan.{lan2wan_alias}
use natporte.Alias.Entries.{alias-IsTable}
use natporte.Fragment.{mk_fn_packet, last_addr, FnPacket}
use natporte.System.{System, Payload, Kernel, Sin, Datagram, other_error}
use natporte.System.Inv.{IsSystem, Runs, send_packet-Runs}
use natporte.System.Closing.{closing, closing-IsSystem}
use natporte.Divert.{
  DivertArgs, Side, lan, wan, other, side_of, block, divert_push, ask_pool, request_block,
  release_block, act, divert_packet, divert_step, entry_of,
}

pub push-IsSystem :
    (fresh : Bytes) (r : Slot Payload) (s : System) → IsSystem s → IsSystem (divert_push fresh r s)
unfolding divert_push
push-IsSystem fresh r s v = record {
  table = v.table;
  send = (ring_push_refines (block fresh) s.h_send r.buffer r.size r.opaque v.send).1.0;
  recv = v.recv;
  sound = v.sound;
}

pub ask-IsSystem :
    (fresh : Bytes) (side : Side) (b : Bytes) (size : ℕ) (s : System)
    → IsSystem s
    → IsSystem (ask_pool fresh side b size s)
unfolding ask_pool
ask-IsSystem fresh lan b size s v =
    let r = request_block b size in
    record {
      table = v.table;
      send = (ring_push_refines (block fresh) s.h_send r.buffer r.size r.opaque v.send).1.0;
      recv = v.recv;
      sound = v.sound;
    }
ask-IsSystem fresh wan b size s v = v
ask-IsSystem fresh other b size s v = v

ask-sent :
    (fresh : Bytes) (side : Side) (b : Bytes) (size : ℕ) (s : System)
    → (ask_pool fresh side b size s).sent ≡ s.sent
unfolding ask_pool
ask-sent fresh lan b size s = refl
ask-sent fresh wan b size s = refl
ask-sent fresh other b size s = refl

last_addr-some : (l : List ℕ) → l ≢ [] → (a : ℕ) × (last_addr l ≡ some a)
unfolding last_addr
last_addr-some [] h = absurd (h refl)
last_addr-some (a ∷ []) h = (a, refl)
last_addr-some (a ∷ x ∷ l) h = last_addr-some (x ∷ l) (λ e. cc)

mk_fn_packet-some :
    (c : Config) (id : ℕ) (b : Bytes) (size : ℕ)
    → c.lan_addr ≢ []
    → (r : FnPacket) × (mk_fn_packet c id b size ≡ some r)
unfolding mk_fn_packet
mk_fn_packet-some c id b size h =
    let (a, e) = last_addr-some c.lan_addr h in
    elim (Option-cases (mk_fn_packet c id b size)) [ inl n ↦ ground (arith, e, n) | inr r ↦ r ]

pub other_if_check_table : (b : Bytes) (g : Globals) → (other_if_check b g).globals.table ≡ g.table
unfolding other_if_check
other_if_check_table b g = ground arith

module _ (k : Kernel) (c : Config) (n : Node) (fresh : Bytes) (network : k.sendto ≢ other_error)
    (timers : k.kevent ≡ true) (addressed : c.lan_addr ≢ []) where
  act-Runs :
      (side : Side) (sin : Sin) (v : Verdict) (b : Bytes) (size : ℕ) (s t : System)
      → IsSystem t
      → t.sent ≡ s.sent
      → Runs s (act k c n fresh side sin v b size t)
  unfolding act divert_push
  act-Runs side sin no_table b size s t g e =
      (ask-IsSystem fresh side b size t g, inl (ask-sent fresh side b size t ∙ e))
  act-Runs side sin too_big b size s t g e =
      let (r, made) = mk_fn_packet-some c t.fn_id b size addressed in
      rw (made, Runs, act)
        (send_packet-Runs k.sendto _ s _ network
          (record { table = g.table; send = g.send; recv = g.recv; sound = g.sound }) e)
  act-Runs side sin reset_table b size s t g e =
      (push-IsSystem fresh (release_block b size) t g, inl e)
  act-Runs side sin del_table b size s t g e =
      elim (Option-cases (entry_of side b size n t.globals.table)) [
        | inl lost ↦ rw (lost, Runs, act) (g, inl e)
        | inr (p, found) ↦
            rw (found, Runs, act, timers)
              (send_packet-Runs k.sendto _ s (closing p (pos 400) t) network
                (closing-IsSystem p (pos 400) t g) e)
      ]
  act-Runs side sin do_alias b size s t g e = send_packet-Runs k.sendto _ s t network g e
  act-Runs side sin too_short b size s t g e = (g, inl e)
  act-Runs side sin do_drop b size s t g e = (g, inl e)
  act-Runs side sin not_support b size s t g e = send_packet-Runs k.sendto _ s t network g e
  act-Runs side sin to_me b size s t g e = send_packet-Runs k.sendto _ s t network g e
  act-Runs side sin from_me b size s t g e = send_packet-Runs k.sendto _ s t network g e
  act-Runs side sin through b size s t g e = (g, inl e)

  packet-Runs :
      (now : ℕ) (side : Side) (d : Datagram) (s : System)
      → IsSystem s
      → Runs s (divert_packet k c now n fresh side d s)
  unfolding divert_packet
  packet-Runs now lan d s v =
      let r = lan2wan_alias c now d.buf d.size s.globals in
      act-Runs lan d.sin r.verdict r.buf d.size s (record s { globals = r.globals })
        (record {
          table = (alias-IsTable c now d.buf d.size s.globals v.table).1;
          send = v.send;
          recv = v.recv;
          sound = v.sound;
        })
        refl
  packet-Runs now wan d s v =
      let r = wan2lan_alias c now d.buf d.size s.globals in
      act-Runs wan d.sin r.verdict r.buf d.size s (record s { globals = r.globals })
        (record {
          table = (alias-IsTable c now d.buf d.size s.globals v.table).0;
          send = v.send;
          recv = v.recv;
          sound = v.sound;
        })
        refl
  packet-Runs now other d s v =
      let r = other_if_check d.buf s.globals in
      send_packet-Runs k.sendto _ s (record s { globals = r.globals }) network
        (record {
          table = rw (other_if_check_table d.buf s.globals) v.table;
          send = v.send;
          recv = v.recv;
          sound = v.sound;
        })
        refl

  -- Each step of the divert thread on a received packet, in a good state, comes to its end,
  -- neither exits nor follows a bad pointer, leaves a good state and hands at most one packet to
  -- `sendto`, if `sendto` fails only for a host that is down or unreachable, `kevent` does not
  -- fail, and the LAN interface has an address.
  pub divert_step-Runs :
      (a : DivertArgs) (now : ℕ) (d : Datagram) (s : System)
      → IsSystem s
      → Runs s (divert_step k c a now n fresh (some d) s)
  unfolding divert_step
  divert_step-Runs a now d s v = elim (Option-cases s.divert) [
    | inl free ↦ rw (free, Runs, divert_step) (packet-Runs now (side_of a d.sin.ifname) d s v)
    | inr (r, held) ↦ rw (held, Runs, divert_step) (push-IsSystem fresh r s v, inl refl)
  ]
