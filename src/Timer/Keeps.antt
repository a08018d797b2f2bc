-- ===== src/Timer/Keeps.antt =====
-- src/main.cpp: no step of the timer loop spoils the shared state.
use natporte.Base.{
  ℕ, Bool, Option, some, none, inl, inr, Option-cases, arith, ◌==◌, if◌then◌else◌, Bool-cases,
}
use natporte.Ring.{Slot}
use natporte.Ring.Refine.{ring_s_push_refines}
use natporte.System.{System, Payload, done, exits, ev_delete, kevent}
use natporte.System.Inv.{IsSystem}
use natporte.System.Preserves.{Preserves, >>=-Preserves, kevent-Preserves}
use natporte.System.Events.{del_timer_event_tcp, del_timer_event_udp}
use natporte.Table.{find_l2w}
use natporte.Timer.{timer_push, timer_entry, timer_step, timer_probe, timeout_block}

pub timer_push-IsSystem : (r : Slot Payload) (s : System) → IsSystem s → IsSystem (timer_push r s)
unfolding timer_push
timer_push-IsSystem r s v = record {
  table = v.table;
  send = (ring_s_push_refines s.h_send r v.send).1.0;
  recv = v.recv;
  sound = v.sound;
}

entry-Preserves :
    (k : Bool) (node_size now ident p : ℕ) (s : System)
    → IsSystem s
    → Preserves (timer_entry k node_size now ident p s)
unfolding timer_entry del_timer_event_tcp del_timer_event_udp
entry-Preserves k node_size now ident p s v =
    let fires =
      >>=-Preserves (kevent k (ev_delete ident) s)
        (λ t. done (timer_push (timeout_block node_size p) t))
        (kevent-Preserves k (ev_delete ident) s v)
        (λ t w. timer_push-IsSystem (timeout_block node_size p) t w) in
    ground (arith, fires, v)

pub timer_step-Preserves :
    (k : Bool) (node_size now : ℕ) (event : Option ℕ) (s : System)
    → IsSystem s
    → Preserves (timer_step k node_size now event s)
unfolding timer_step
timer_step-Preserves k node_size now event s v = elim (Option-cases s.timer) [
  | inl free ↦ rw (free, Preserves, timer_step) (happened event)
  | inr (r, held) ↦ rw (held, Preserves, timer_step) (timer_push-IsSystem r s v)
]
  where
    found :
        (ident : ℕ) (o : Option ℕ)
        → Preserves (elim o [ none ↦ done s | some p ↦ timer_entry k node_size now ident p s ])
    found ident none = v
    found ident (some p) = entry-Preserves k node_size now ident p s v

    happened :
        (event : Option ℕ)
        → Preserves (elim event [
          | none ↦ exits
          | some ident ↦
              if ident == 1 then done s else elim (find_l2w s.globals.table (timer_probe ident)) [
                | none ↦ done s
                | some p ↦ timer_entry k node_size now ident p s
              ]
        ])
    happened none = tt
    happened (some ident) = elim (Bool-cases (ident == 1)) [
      | inl dump ↦ rw (dump, Preserves) v
      | inr other ↦
          rw (other, Preserves) (found ident (find_l2w s.globals.table (timer_probe ident)))
    ]
