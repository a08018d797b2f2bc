-- ===== src/Pool/Taken.antt =====
-- src/addrpool.h: the receiver takes the first block, for which the oldest message was that the
-- pool has not answered.
use natporte.Base.{ℕ, Bool, ◌≡◌, refl, subst, true, ◌++◌, some, none, Option, List, [], ◌∷◌}
use natporte.Filter.{Config}
use natporte.Ring.{Handler, Slot, ring_pop_condblock}
use natporte.Ring.Inv.{contents, IsValid}
use natporte.Ring.Pop.{ring_pop_condblock-Popped}
use natporte.System.{System, Payload, Outcome, done, exits, fault, Kernel}
use natporte.System.Frame.{queues, Frames}
use natporte.System.Told.{IsTold, Tells, Told, Frames-Tells, told_pop}
use natporte.Pool.{
  Message, request_ack, request_discard, release_ack, release_discard, initialize, other,
}
use natporte.Pool.Receiver.{
  take_block, receive, on_request_ack, on_request_discard, on_release_ack, on_release_discard,
}
use natporte.Pool.Step.{read_text, receiver_step, lines_and_rest}
use natporte.Pool.Lines.{split}
use natporte.Pool.Frame.{
  request_ack-Frames, discard-Frames, release_ack-Frames, release_discard-Frames,
}
use natporte.Pool.Told.{after_pop-Tells}

took :
    (s : System) (next : Payload → ℕ → ℕ → System → Outcome System)
    → IsTold (queues s)
    → ((b : Payload) (size flags : ℕ) (u : System) → Frames (queues u) (next b size flags u))
    → Tells (take_block s next)
unfolding take_block
took s next t step =
    after_pop-Tells s.h_recv (ring_pop_condblock s.h_recv true) (λ g. record s { h_recv = g }) next
      (ring_pop_condblock-Popped s.h_recv true t.recv)
      (λ g r first w.
        let u = taken g r w first in
        (
          u,
          λ b size.
              Frames-Tells (queues (record s { h_recv = g })) _
                (step b size r.opaque (record s { h_recv = g })) u,
        ))
  where
    taken :
        (g : Handler Payload) (r : Slot Payload)
        → IsValid g
        → contents s.h_recv ≡ r ∷ contents g
        → IsTold (queues (record s { h_recv = g }))
    taken g r valid first = record {
      send = t.send;
      recv = valid;
      flagged = t.flagged;
      divert = t.divert;
      timer = t.timer;
      told = told_pop r (contents g) s.notices (subst (λ rs. Told rs s.notices) first t.told);
      held = t.held;
    }

module _ (k : Kernel) (c : Config) (now : ℕ) (opt_reset : Bool) (p : ℕ) where
  receive-Tells :
      (m : Message) (s : System) → IsTold (queues s) → Tells (receive k c now opt_reset p m s)
  unfolding receive
  receive-Tells (request_ack e) s t =
      took s (on_request_ack k c now p e) t
        (λ b size flags u. request_ack-Frames k c now (queues u) p e b size flags u refl)
  receive-Tells request_discard s t =
      took s (on_request_discard k opt_reset) t
        (λ b size flags u. discard-Frames k c now (queues u) opt_reset b size flags u refl)
  receive-Tells (release_ack e) s t =
      took s (on_release_ack k c now e) t
        (λ b size flags u. release_ack-Frames k c now (queues u) e b size flags u refl)
  receive-Tells release_discard s t =
      took s on_release_discard t
        (λ b size flags u. release_discard-Frames (queues u) b size flags u refl)
  receive-Tells (initialize tcp udp) s t = t
  receive-Tells other s t = t

read-Tells :
    (received : Option (List ℕ)) (s : System) → IsTold (queues s) → Tells (read_text received s)
unfolding read_text
read-Tells none s t = tt
read-Tells (some []) s t = tt
read-Tells (some (x ∷ xs)) s t = go (lines_and_rest (split (s.text ++ x ∷ xs)))
  where
    go :
        (o : Option (List (List ℕ) × List ℕ))
        → Tells (elim o [
          | none ↦ fault
          | some (ls, rest) ↦ done (record s { pending = ls; text = rest })
        ])
    go none = tt
    go (some (ls, rest)) = t

pub receiver_step-Tells :
    (k : Kernel) (c : Config) (now : ℕ) (opt_reset : Bool) (parse : List ℕ → Option Message) (p : ℕ)
    (received : Option (List ℕ)) (s : System)
    → IsTold (queues s)
    → Tells (receiver_step k c now opt_reset parse p received s)
unfolding receiver_step
receiver_step-Tells k c now opt_reset parse p received s t = go s.pending
  where
    handled :
        (rest : List (List ℕ)) (o : Option Message)
        → Tells (elim o [
          | none ↦ exits
          | some m ↦ receive k c now opt_reset p m (record s { pending = rest })
        ])
    handled rest none = tt
    handled rest (some m) = receive-Tells k c now opt_reset p m (record s { pending = rest }) t

    go :
        (lines : List (List ℕ))
        → Tells (elim lines [
          | [] ↦ read_text received s
          | line ∷ rest ↦ elim (parse line) [
            | none ↦ exits
            | some m ↦ receive k c now opt_reset p m (record s { pending = rest })
          ]
        ])
    go [] = read-Tells received s t
    go (line ∷ rest) = handled rest (parse line)
