-- ===== src/Pool/Keeps.antt =====
-- src/addrpool.h: no step of the two threads spoils the shared state.
use natporte.Base.{
  ℕ, Bool, true, Option, some, none, inl, inr, Option-cases, Bool-cases, arith, ◌∷◌,
}
use natporte.Node.{mk_node}
use natporte.Ring.{Slot, Handler, Status, Out, ring_s_push, ring_pop_condblock}
use natporte.Ring.Inv
use natporte.Ring.Refine.{ring_s_push_refines}
use natporte.Ring.Pop.{Popped, ring_pop_condblock-Popped}
use natporte.System.{
  System, Payload, packet, entry, Outcome, done, waits, ap_timeout, Notice, request, release, is_ok,
}
use natporte.System.Inv.{IsSystem}
use natporte.System.Preserves.{Preserves}
use natporte.Pool.{zero_node, ends_of}
use natporte.Pool.Sender.{notify, sender_push, send_block, sender_step, ends_in, released, flags_of}

notify-Preserves : (k : Bool) (flags : ℕ) (s : System) → IsSystem s → Preserves (notify k flags s)
unfolding notify
notify-Preserves k flags s v = elim (Option-cases s.mesg) [
  | inl empty ↦ ground (arith, empty, v)
  | inr (m, full) ↦
      let told : IsSystem (record s { notices = m ∷ s.notices }) = record {
        table = v.table;
        send = v.send;
        recv = v.recv;
        sound = v.sound;
      } in
      ground (arith, full, told, v)
]

push-Preserves :
    (k : Bool) (r : Slot Payload) (flags : ℕ) (s : System)
    → IsSystem s
    → Preserves (sender_push k r flags s)
unfolding sender_push
push-Preserves k r flags s v =
    let h = (ring_s_push s.h_recv r).1 in
    let valid = (ring_s_push_refines s.h_recv r v.recv).1.0 in
    let queued : IsSystem (record s { h_recv = h; sender = none }) = record {
      table = v.table;
      send = v.send;
      recv = valid;
      sound = v.sound;
    } in
    let held : IsSystem (record s { h_recv = h; sender = some (r, flags) }) = record {
      table = v.table;
      send = v.send;
      recv = valid;
      sound = v.sound;
    } in
    elim (Bool-cases (is_ok (ring_s_push s.h_recv r).0)) [
      | inl pushed ↦
          rw (pushed, Preserves, sender_push)
            (notify-Preserves k flags (record s { h_recv = h; sender = none }) queued)
      | inr full ↦ rw (full, Preserves, sender_push) held
    ]

block-Preserves :
    (k : Bool) (now : ℕ) (b : Payload) (size flags : ℕ) (s : System)
    → IsSystem s
    → Preserves (send_block k now b size flags s)
unfolding send_block
block-Preserves k now (packet b) size flags s v =
    let told = λ (m : Notice). λ (r : Slot Payload).
      push-Preserves k r flags (record s { mesg = some m })
        (record { table = v.table; send = v.send; recv = v.recv; sound = v.sound }) in
    elim (Option-cases (released s.globals.table (ends_in b size))) [
      | inl lost ↦ ground (
        arith,
        lost,
        notify-Preserves k flags s v,
        told (request now (ends_of (mk_node b size zero_node).1))
            (record { buffer = some (packet b); size = size; opaque = 0 }),
      )
      | inr ((p, direction), found) ↦ ground (
        arith,
        found,
        notify-Preserves k flags s v,
        told (request now (ends_of (mk_node b size zero_node).1))
            (record { buffer = some (packet b); size = size; opaque = 0 }),
        told (release now (ends_of (s.globals.table.entry p)))
            (record { buffer = some (packet b); size = size; opaque = direction }),
      )
    ]
block-Preserves k now (entry p) size flags s v =
    let told =
      push-Preserves k (record { buffer = some (entry p); size = size; opaque = ap_timeout }) flags
        (record s { mesg = some (release now (ends_of (s.globals.table.entry p))) })
        (record { table = v.table; send = v.send; recv = v.recv; sound = v.sound }) in
    ground (arith, told, notify-Preserves k flags s v)

-- A step that takes a block from a ring, by what the ring gives.
abbrev pub after_pop :
    Option (Status × Out Payload × Handler Payload)
    → (Handler Payload → System)
    → (Payload → ℕ → ℕ → System → Outcome System)
    → Outcome System
after_pop popped left next = elim popped [
  | none ↦ waits
  | some (status, out, h) ↦ elim out.buffer [
    | none ↦ done (left h)
    | some b ↦ next b out.size (flags_of out.opaque) (left h)
  ]
]

pub after_pop-holds :
    (P : Outcome System → Type 0) (h : Handler Payload)
    (popped : Option (Status × Out Payload × Handler Payload)) (left : Handler Payload → System)
    (next : Payload → ℕ → ℕ → System → Outcome System)
    → P waits
    → Popped h true popped
    → ((g : Handler Payload) → Inv.IsValid g → P (done (left g)))
    → ((b : Payload) (size flags : ℕ) (g : Handler Payload)
        → Inv.IsValid g
        → P (next b size flags (left g)))
    → P (after_pop popped left next)
after_pop-holds P h none left next stops p ok step = stops
after_pop-holds P h (some (status, out, g)) left next stops p ok step =
    elim (Option-cases out.buffer) [
      | inl null ↦ rw null (ok g p.3.0)
      | inr (b, there) ↦ rw there (step b out.size (flags_of out.opaque) g p.3.0)
    ]

pub sender_step-Preserves :
    (k : Bool) (now : ℕ) (s : System) → IsSystem s → Preserves (sender_step k now s)
unfolding sender_step
sender_step-Preserves k now s v = elim (Option-cases s.sender) [
  | inl free ↦
      rw (free, Preserves, sender_step)
        (after_pop-holds Preserves s.h_send (ring_pop_condblock s.h_send true)
          (λ g. record s { h_send = g }) (send_block k now) tt
          (ring_pop_condblock-Popped s.h_send true v.send)
          (λ g w. record { table = v.table; send = w; recv = v.recv; sound = v.sound })
          (λ b size flags g w.
            block-Preserves k now b size flags (record s { h_send = g })
              (record { table = v.table; send = w; recv = v.recv; sound = v.sound })))
  | inr ((r, flags), held) ↦ rw (held, Preserves, sender_step) (push-Preserves k r flags s v)
]
