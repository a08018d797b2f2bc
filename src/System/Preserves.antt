-- ===== src/System/Preserves.antt =====
-- What a step may do to the shared state, whatever the operating system answers.
use natporte.Base.{◌≡◌, [], ℕ, Bool, true, false}
use natporte.Base.Int.{ℤ}
use natporte.Alias.{Globals}
use natporte.Table.Inv.{IsTable}
use natporte.System.{
  System, Outcome, done, waits, exits, fault, ◌>>=◌, Answer, success, host_down, host_unreach,
  other_error, Datagram, Kev, send_packet, kevent,
}
use natporte.System.Inv.{IsSystem}
use natporte.System.Events.{timer_event_delete_for_node, timer_event_delete}
use natporte.System.Closing.{closing-IsSystem}

-- When the step comes to its end, the state is still good.
abbrev pub Preserves : Outcome System → Type 0
Preserves (done t) = IsSystem t
Preserves waits = Unit
Preserves exits = Unit
Preserves fault = Unit

-- The same, of a step that may free an entry of the table: unless it has.
abbrev pub Guards : Outcome System → Type 0
Guards (done t) = t.dangling ≡ [] → IsSystem t
Guards waits = Unit
Guards exits = Unit
Guards fault = Unit

pub Preserves-Guards : (m : Outcome System) → Preserves m → Guards m
Preserves-Guards (done t) v = λ sound. v
Preserves-Guards waits v = tt
Preserves-Guards exits v = tt
Preserves-Guards fault v = tt

pub >>=-Preserves :
    (m : Outcome System) (f : System → Outcome System)
    → Preserves m
    → ((t : System) → IsSystem t → Preserves (f t))
    → Preserves (m >>= f)
>>=-Preserves (done t) f h k = k t h
>>=-Preserves waits f h k = tt
>>=-Preserves exits f h k = tt
>>=-Preserves fault f h k = tt

-- The parts of the state that the invariant is about may be exchanged for good ones.
pub with-IsSystem :
    (s : System) (g : Globals) → IsTable g.table → IsSystem s → IsSystem (record s { globals = g })
with-IsSystem s g w v = record { table = w; send = v.send; recv = v.recv; sound = v.sound }

pub send_packet-Preserves :
    (a : Answer) (d : Datagram) (s : System) → IsSystem s → Preserves (send_packet a d s)
unfolding send_packet
send_packet-Preserves success d s v = record {
  table = v.table;
  send = v.send;
  recv = v.recv;
  sound = v.sound;
}
send_packet-Preserves host_down d s v = record {
  table = v.table;
  send = v.send;
  recv = v.recv;
  sound = v.sound;
}
send_packet-Preserves host_unreach d s v = record {
  table = v.table;
  send = v.send;
  recv = v.recv;
  sound = v.sound;
}
send_packet-Preserves other_error d s v = tt

pub kevent-Preserves : (k : Bool) (e : Kev) (s : System) → IsSystem s → Preserves (kevent k e s)
unfolding kevent
kevent-Preserves true e s v = record {
  table = v.table;
  send = v.send;
  recv = v.recv;
  sound = v.sound;
}
kevent-Preserves false e s v = tt

pub timer_event_delete_for_node-Preserves :
    (k : Bool) (p : ℕ) (timer : ℤ) (s : System)
    → IsSystem s
    → Preserves (timer_event_delete_for_node k p timer s)
unfolding timer_event_delete_for_node timer_event_delete kevent
timer_event_delete_for_node-Preserves true p timer s v = closing-IsSystem p timer s v
timer_event_delete_for_node-Preserves false p timer s v = tt
