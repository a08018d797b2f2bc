-- ===== src/System/Closing.antt =====
-- src/structure.h: `timer_event_delete_for_node` in a good state.
use natporte.Base.{ℕ, ◌≡◌, refl, ◌∷◌, true, arith}
use natporte.Base.Int.{ℤ}
use natporte.Node.{timer_close}
use natporte.Table.{set_entry}
use natporte.Table.Same.{IsTable-Same, lasting}
use natporte.System.{System, done, ev_add, ev_delete, kevent}
use natporte.System.Events.{timer_event_delete_for_node, timer_event_delete}
use natporte.System.Inv.{IsSystem}

-- The entry `p` is marked, and its timer is set to `timer` milliseconds.
abbrev pub closing : ℕ → ℤ → System → System
closing p timer s =
    let g = s.globals in
    let ident = (g.table.entry p).l2w_key in
    record s {
      globals = record g {
        table = set_entry g.table p (record (g.table.entry p) { timer_flags = timer_close });
      };
      kevs = ev_add ident timer ∷ ev_delete ident ∷ s.kevs;
    }

pub timer_event_delete_for_node_done :
    (p : ℕ) (timer : ℤ) (s : System)
    → timer_event_delete_for_node true p timer s ≡ done (closing p timer s)
unfolding timer_event_delete_for_node timer_event_delete kevent
timer_event_delete_for_node_done p timer s = refl

pub closing-IsSystem : (p : ℕ) (timer : ℤ) (s : System) → IsSystem s → IsSystem (closing p timer s)
unfolding set_entry
closing-IsSystem p timer s v = record {
  table = IsTable-Same s.globals.table _ (refl, refl, λ q i. same q) v.table;
  send = v.send;
  recv = v.recv;
  sound = v.sound;
}
  where
    same :
        (q : ℕ)
        → lasting ((closing p timer s).globals.table.entry q) ≡ lasting (s.globals.table.entry q)
    same q = ground arith
