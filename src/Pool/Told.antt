-- ===== src/Pool/Told.antt =====
-- src/addrpool.h: the sender tells the pool of each block that it puts into the receiver's ring.
use natporte.Base.{
  ℕ, Bool, true, ◌≡◌, ◌⊎◌, refl, sym, subst, Option, some, none, inl, inr, Option-cases, Bool-cases,
  arith, Bytes, ◌∷◌, [], ◌++◌, bit_and, ◌==◌,
}
use natporte.Node.{Node, mk_node}
use natporte.Table.{Table, find_l2w, find_w2l}
use natporte.Ring.{Slot, Handler, Status, Out, ring_s_push, ring_pop_condblock}
use natporte.Ring.Inv.{contents, capacity, IsValid}
use natporte.Ring.Refine.{ring_s_push_refines}
use natporte.Ring.Pop.{Popped, ring_pop_condblock-Popped}
use natporte.System.{
  System, Payload, packet, entry, Outcome, ap_high, ap_addrpool, ap_timeout, ap_rel_l2w, ap_rel_w2l,
  Notice, request, release, is_ok,
}
use natporte.System.Frame.{queues}
use natporte.System.Told.{
  IsTold, Flagged, AllFlagged, Held, Matches, Tells, Told, told_push, pushed_ok, pushed_over,
}
use natporte.Pool.Keeps.{after_pop}
use natporte.Pool.{zero_node, ends_of}
use natporte.Pool.Sender.{notify, sender_push, send_block, sender_step, ends_in, released}

high : (flags : ℕ) → Flagged flags → (bit_and flags ap_high == ap_addrpool) ≡ true
high flags (inl e) = rw e refl
high flags (inr (inl e)) = rw e refl
high flags (inr (inr e)) = rw e refl

-- The block is in the ring, and its message goes out.
notify-Tells :
    (k : Bool) (flags : ℕ) (m : Notice) (r : Slot Payload) (s : System) (h : Handler Payload)
    → Flagged flags
    → s.mesg ≡ some m
    → Matches m r
    → IsValid h
    → contents h ≡ contents s.h_recv ++ r ∷ []
    → IsTold (queues s)
    → Tells (notify k flags (record s { h_recv = h; sender = none }))
unfolding notify
notify-Tells k flags m r s h f full fits valid more t =
    let told : IsTold (queues (record s { h_recv = h; sender = none; notices = m ∷ s.notices })) =
      record {
        send = t.send;
        recv = valid;
        flagged = t.flagged;
        divert = t.divert;
        timer = t.timer;
        told = rw more (told_push (contents s.h_recv) s.notices m r t.told fits);
        held = tt;
      } in
    ground (arith, full, told, high flags f)

push-Tells :
    (k : Bool) (r : Slot Payload) (flags : ℕ) (m : Notice) (s : System)
    → Flagged flags
    → s.mesg ≡ some m
    → Matches m r
    → IsTold (queues s)
    → Tells (sender_push k r flags s)
unfolding sender_push
push-Tells k r flags m s f full fits t =
    let (status, h) = ring_s_push s.h_recv r in
    let (pushed, (valid, same_size, same_lock)) = ring_s_push_refines s.h_recv r t.recv in
    elim (Bool-cases (is_ok (ring_s_push s.h_recv r).0)) [
      | inl in_it ↦
          rw (in_it, Tells, sender_push)
            (notify-Tells k flags m r s h f full fits valid
              (pushed_ok (capacity s.h_recv) (contents s.h_recv) r status (contents h) pushed in_it)
              t)
      | inr over ↦
          rw (over, Tells, sender_push)
            (record {
              send = t.send;
              recv = valid;
              flagged = t.flagged;
              divert = t.divert;
              timer = t.timer;
              told =
                  subst (λ rs. Told rs s.notices)
                    (sym (
                      pushed_over (capacity s.h_recv) (contents s.h_recv) r status (contents h)
                        pushed over))
                    t.told;
              held = (f, m, full, fits);
            })
    ]

released-direction :
    (t : Table) (n : Node) (p direction : ℕ)
    → released t n ≡ some (p, direction)
    → (direction ≡ ap_rel_l2w) ⊎ (direction ≡ ap_rel_w2l)
unfolding released
released-direction t n p direction e = elim (Option-cases (find_l2w t n)) [
  | inl lost ↦ elim (Option-cases (find_w2l t n)) [
    | inl gone ↦ ground (arith, lost, gone, e)
    | inr (q, found) ↦ ground (arith, lost, found, e)
  ]
  | inr (q, found) ↦ ground (arith, found, e)
]

module _ (k : Bool) (now size flags : ℕ) (s : System) (f : Flagged flags) (free : s.sender ≡ none)
    (t : IsTold (queues s)) where
  -- The text is written, and the block pushed.
  texted-Tells :
      (m : Notice) (r : Slot Payload)
      → Matches m r
      → Tells (sender_push k r flags (record s { mesg = some m }))
  texted-Tells m r fits =
      push-Tells k r flags m (record s { mesg = some m }) f refl fits
        (record {
          send = t.send;
          recv = t.recv;
          flagged = t.flagged;
          divert = t.divert;
          timer = t.timer;
          told = t.told;
          held = rw free tt;
        })

  asks :
      (b : Bytes)
      → Tells (
          sender_push k
            (record { buffer = some (packet b); size = size; opaque = 0 })
            flags
            (record s { mesg = some (request now (ends_of (mk_node b size zero_node).1)) }))
  asks b =
      texted-Tells (request now (ends_of (mk_node b size zero_node).1))
        (record { buffer = some (packet b); size = size; opaque = 0 }) (b, refl, refl, refl)

  releases :
      (b : Bytes) (p direction : ℕ)
      → (direction ≡ ap_rel_l2w) ⊎ (direction ≡ ap_rel_w2l)
      → Tells (
          sender_push k
            (record { buffer = some (packet b); size = size; opaque = direction })
            flags
            (record s { mesg = some (release now (ends_of (s.globals.table.entry p))) }))
  releases b p direction way =
      texted-Tells (release now (ends_of (s.globals.table.entry p)))
        (record { buffer = some (packet b); size = size; opaque = direction }) (inr (b, refl, way))

  block-Tells : (b : Payload) → Tells (send_block k now b size flags s)
  unfolding send_block
  block-Tells (packet b) = go (released s.globals.table (ends_in b size)) refl f
    where
      go :
          (o : Option (ℕ × ℕ))
          → released s.globals.table (ends_in b size) ≡ o
          → Flagged flags
          → Tells (send_block k now (packet b) size flags s)
      go o e (inl req) = ground (arith, req, asks b)
      go none e (inr (inl rel)) = ground (arith, rel, e)
      go (some (p, direction)) e (inr (inl rel)) = ground (
        arith,
        rel,
        e,
        releases b p direction (released-direction s.globals.table (ends_in b size) p direction e),
      )
      go o e (inr (inr out)) = ground (arith, out)
  block-Tells (entry p) =
      let told =
        texted-Tells (release now (ends_of (s.globals.table.entry p)))
          (record { buffer = some (entry p); size = size; opaque = ap_timeout })
          (inl (p, refl, refl)) in
      ground (arith, told, f)

-- A step that takes a block from a ring: the block was the first one of the ring.
pub after_pop-Tells :
    (h : Handler Payload) (popped : Option (Status × Out Payload × Handler Payload))
    (left : Handler Payload → System) (next : Payload → ℕ → ℕ → System → Outcome System)
    → Popped h true popped
    → ((g : Handler Payload) (r : Slot Payload)
        → contents h ≡ r ∷ contents g
        → IsValid g
        → IsTold (queues (left g))
          × ((b : Payload) (size : ℕ) → Tells (next b size r.opaque (left g))))
    → Tells (after_pop popped left next)
after_pop-Tells h none left next p step = tt
after_pop-Tells h (some (status, out, g)) left next (r, same, first, kept) step =
    let (left_told, goes) = step g r first kept.0 in
    subst (λ (o : Out Payload). Tells (after_pop (some (status, o, g)) left next)) (sym same)
      (elim (Option-cases r.buffer) [
        | inl null ↦ ground (arith, null, left_told)
        | inr (b, there) ↦ ground (arith, there, goes b r.size)
      ])

pub sender_step-Tells :
    (k : Bool) (now : ℕ) (s : System) → IsTold (queues s) → Tells (sender_step k now s)
unfolding sender_step
sender_step-Tells k now s t = elim (Option-cases s.sender) [
  | inl free ↦
      rw (free, Tells, sender_step)
        (after_pop-Tells s.h_send (ring_pop_condblock s.h_send true) (λ g. record s { h_send = g })
          (send_block k now) (ring_pop_condblock-Popped s.h_send true t.send)
          (λ g r first w.
            let flagged = subst AllFlagged first t.flagged in
            let u = taken g w flagged.1 in
            (
              u,
              λ b size.
                  block-Tells k now size r.opaque (record s { h_send = g }) flagged.0 free u b,
            )))
  | inr ((r, flags), held) ↦
      let (f, m, full, fits) = subst (λ o. Held o s.mesg) held t.held in
      rw (held, Tells, sender_step) (push-Tells k r flags m s f full fits t)
]
  where
    taken :
        (g : Handler Payload)
        → IsValid g
        → AllFlagged (contents g)
        → IsTold (queues (record s { h_send = g }))
    taken g valid flagged = record {
      send = valid;
      recv = t.recv;
      flagged = flagged;
      divert = t.divert;
      timer = t.timer;
      told = t.told;
      held = t.held;
    }
