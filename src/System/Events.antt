-- ===== src/System/Events.antt =====
-- src/structure.h: the timers of the entries. A timer is named by its entry's LAN key.
use natporte.Base.{ℕ, zero, suc, ◌+◌, ◌/◌, Bool, ◌∷◌}
use natporte.Base.Int.{ℤ, pos, negsuc}
use natporte.Node.{timer_close}
use natporte.Table.{set_entry}
use natporte.System.{System, Outcome, ev_add, ev_delete, kevent}

-- Division of an `int` by a positive number, which rounds to 0; `neg n` is -n.
abbrev pub neg : ℕ → ℤ
neg zero = pos 0
neg (suc n) = negsuc n

unfoldable pub quotient : ℤ → ℕ → ℤ
quotient (pos n) d = pos (n / d)
quotient (negsuc n) d = neg ((n + 1) / d)

unfoldable pub add_timer_event_udp : Bool → ℕ → System → Outcome System
unfolding quotient
add_timer_event_udp k ident s = kevent k (ev_add ident (quotient s.timeout_udp 2)) s

unfoldable pub add_timer_event_tcp : Bool → ℕ → System → Outcome System
unfolding quotient
add_timer_event_tcp k ident s = kevent k (ev_add ident (quotient s.timeout_tcp 2)) s

unfoldable pub del_timer_event_udp : Bool → ℕ → System → Outcome System
unfolding kevent
del_timer_event_udp k ident s = kevent k (ev_delete ident) s

unfoldable pub del_timer_event_tcp : Bool → ℕ → System → Outcome System
unfolding kevent
del_timer_event_tcp k ident s = kevent k (ev_delete ident) s

-- The result of the first call is overwritten by that of the second.
unfoldable pub timer_event_delete : Bool → ℕ → ℤ → System → Outcome System
unfolding kevent
timer_event_delete k ident timer s =
    kevent k (ev_add ident timer) (record s { kevs = ev_delete ident ∷ s.kevs })

-- `table->timer_flags = S_TIMER_CLOSE`, and the timer is set anew.
unfoldable pub timer_event_delete_for_node : Bool → ℕ → ℤ → System → Outcome System
unfolding timer_event_delete
timer_event_delete_for_node k p timer s =
    let g = s.globals in
    let closing = record (g.table.entry p) { timer_flags = timer_close } in
    timer_event_delete k (g.table.entry p).l2w_key timer
      (record s { globals = record g { table = set_entry g.table p closing } })
