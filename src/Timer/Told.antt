-- ===== src/Timer/Told.antt =====
-- src/main.cpp: the timer loop puts only blocks into the ring that the sender knows.
use natporte.Base.{
  ℕ, Bool, Option, some, none, inl, inr, Option-cases, Bool-cases, arith, ◌==◌, if◌then◌else◌, refl,
  sym, subst,
}
use natporte.Table.{find_l2w}
use natporte.Ring.{Slot, ring_s_push}
use natporte.Ring.Inv.{contents, capacity}
use natporte.Ring.Refine.{ring_s_push_refines}
use natporte.System.{
  System, Payload, Outcome, done, waits, exits, fault, ◌>>=◌, kevent, ev_delete, is_ok,
}
use natporte.System.Events.{del_timer_event_tcp, del_timer_event_udp}
use natporte.System.Frame.{queues, Frames, kevent-Frames}
use natporte.System.Told.{IsTold, Flagged, HeldFlagged, Tells, pushed-AllFlagged}
use natporte.Timer.{timer_step, timer_entry, timer_push, timer_probe, timeout_block}

push-IsTold :
    (r : Slot Payload) (s : System)
    → IsTold (queues s)
    → Flagged r.opaque
    → IsTold (queues (timer_push r s))
unfolding timer_push
push-IsTold r s t h =
    let (status, ring) = ring_s_push s.h_send r in
    record {
      send = (ring_s_push_refines s.h_send r t.send).1.0;
      recv = t.recv;
      flagged =
          pushed-AllFlagged (capacity s.h_send) (contents s.h_send) r status (contents ring)
            (ring_s_push_refines s.h_send r t.send).0 t.flagged h;
      divert = t.divert;
      timer = elim (Bool-cases (is_ok (ring_s_push s.h_send r).0)) [
        | inl k ↦ rw k tt
        | inr k ↦ rw k h
      ];
      told = t.told;
      held = t.held;
    }

-- Two facts about the first part of a step go on to the second.
fires :
    (m : Outcome System) (r : Slot Payload) (s : System)
    → Frames (queues s) m
    → IsTold (queues s)
    → Flagged r.opaque
    → Tells (m >>= λ t. done (timer_push r t))
fires (done u) r s same t h = push-IsTold r u (subst IsTold (sym same) t) h
fires waits r s same t h = tt
fires exits r s same t h = tt
fires fault r s same t h = tt

entry-Tells :
    (k : Bool) (node_size now ident p : ℕ) (s : System)
    → IsTold (queues s)
    → Tells (timer_entry k node_size now ident p s)
unfolding timer_entry del_timer_event_tcp del_timer_event_udp
entry-Tells k node_size now ident p s t = ground (
  arith,
  t,
  fires (kevent k (ev_delete ident) s) (timeout_block node_size p) s
      (kevent-Frames (queues s) k (ev_delete ident) s refl) t (inr (inr refl)),
)

pub timer_step-Tells :
    (k : Bool) (node_size now : ℕ) (event : Option ℕ) (s : System)
    → IsTold (queues s)
    → Tells (timer_step k node_size now event s)
unfolding timer_step
timer_step-Tells k node_size now event s t = elim (Option-cases s.timer) [
  | inl free ↦ rw (free, Tells, timer_step) (happened event)
  | inr (r, held) ↦
      rw (held, Tells, timer_step) (push-IsTold r s t (subst HeldFlagged held t.timer))
]
  where
    found :
        (ident : ℕ) (o : Option ℕ)
        → Tells (elim o [ none ↦ done s | some p ↦ timer_entry k node_size now ident p s ])
    found ident none = t
    found ident (some p) = entry-Tells k node_size now ident p s t

    happened :
        (event : Option ℕ)
        → Tells (elim event [
          | none ↦ exits
          | some ident ↦
              if ident == 1 then done s else elim (find_l2w s.globals.table (timer_probe ident)) [
                | none ↦ done s
                | some p ↦ timer_entry k node_size now ident p s
              ]
        ])
    happened none = tt
    happened (some ident) = elim (Bool-cases (ident == 1)) [
      | inl dump ↦ rw (dump, Tells) t
      | inr other ↦ rw (other, Tells) (found ident (find_l2w s.globals.table (timer_probe ident)))
    ]
