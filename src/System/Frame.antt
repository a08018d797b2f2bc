-- ===== src/System/Frame.antt =====
-- Steps that leave the two rings, and what the threads hold for them, as they are.
use natporte.Base.{ℕ, Bool, true, false, ◌≡◌, Option, List}
use natporte.Base.Int.{ℤ}
use natporte.Ring.{Slot, Handler}
use natporte.System.{
  System, Payload, Notice, Outcome, done, waits, exits, fault, ◌>>=◌, Answer, success, host_down,
  host_unreach, other_error, Datagram, Kev, send_packet, kevent,
}
use natporte.System.Events.{timer_event_delete_for_node, timer_event_delete}

-- The rings, what has been told to the pool, and the blocks that wait for a place.
pub record Queues : Type 0 where
  pub h_send : Handler Payload
  pub h_recv : Handler Payload
  pub notices : List Notice
  pub mesg : Option Notice
  pub divert : Option (Slot Payload)
  pub timer : Option (Slot Payload)
  pub sender : Option (Slot Payload × ℕ)

abbrev pub queues : System → Queues
queues s = record {
  h_send = s.h_send;
  h_recv = s.h_recv;
  notices = s.notices;
  mesg = s.mesg;
  divert = s.divert;
  timer = s.timer;
  sender = s.sender;
}

-- When the step comes to its end, they are as they were.
abbrev pub Frames : Queues → Outcome System → Type 0
Frames q (done t) = queues t ≡ q
Frames q waits = Unit
Frames q exits = Unit
Frames q fault = Unit

pub >>=-Frames :
    (q : Queues) (m : Outcome System) (f : System → Outcome System)
    → Frames q m
    → ((t : System) → queues t ≡ q → Frames q (f t))
    → Frames q (m >>= f)
>>=-Frames q (done t) f h k = k t h
>>=-Frames q waits f h k = tt
>>=-Frames q exits f h k = tt
>>=-Frames q fault f h k = tt

pub send_packet-Frames :
    (q : Queues) (a : Answer) (d : Datagram) (s : System)
    → queues s ≡ q
    → Frames q (send_packet a d s)
unfolding send_packet
send_packet-Frames q success d s h = h
send_packet-Frames q host_down d s h = h
send_packet-Frames q host_unreach d s h = h
send_packet-Frames q other_error d s h = tt

pub kevent-Frames :
    (q : Queues) (k : Bool) (e : Kev) (s : System) → queues s ≡ q → Frames q (kevent k e s)
unfolding kevent
kevent-Frames q true e s h = h
kevent-Frames q false e s h = tt

pub delete_for_node-Frames :
    (q : Queues) (k : Bool) (p : ℕ) (timer : ℤ) (s : System)
    → queues s ≡ q
    → Frames q (timer_event_delete_for_node k p timer s)
unfolding timer_event_delete_for_node timer_event_delete kevent
delete_for_node-Frames q true p timer s h = h
delete_for_node-Frames q false p timer s h = tt
