-- ===== src/Program/Order.antt =====
-- The blocks that wait for the pool's answers, in every run of the program.
use natporte.Base.{ℕ, ◌*◌, ◌^◌, ◌≤◌, refl, subst, sym, [], arith}
use natporte.Node.{Node}
use natporte.Ring.Inv.{ring_init-IsValid}
use natporte.System.{System}
use natporte.System.Frame.{queues}
use natporte.System.Told.{IsTold, Tells, Told, AllFlagged}
use natporte.Divert.Told.{divert_step-Tells}
use natporte.Timer.Told.{timer_step-Tells}
use natporte.Pool.Told.{sender_step-Tells}
use natporte.Pool.Taken.{receiver_step-Tells}
use natporte.Program.{start, Env, Step, divert, sender, receiver, timer, Reach, here, next}

start-IsTold :
    (memory : ℕ → Node) (fresh_send fresh_recv : ℕ → ℕ) (rb_size : ℕ)
    → rb_size * 100 ≤ 2 ^ 31
    → IsTold (queues (start memory fresh_send fresh_recv rb_size))
unfolding start
start-IsTold memory fresh_send fresh_recv rb_size small = record {
  send = (ring_init-IsValid fresh_send rb_size (omega arith)).0;
  recv = (ring_init-IsValid fresh_recv (rb_size * 100) small).0;
  flagged = subst AllFlagged (sym (ring_init-IsValid fresh_send rb_size (omega arith)).1) tt;
  divert = tt;
  timer = tt;
  told =
      subst (λ rs. Told rs []) (sym (ring_init-IsValid fresh_recv (rb_size * 100) small).1)
        ([], [], refl, tt);
  held = tt;
}

Step-IsTold : (e : Env) (s t : System) → Step e s t → IsTold (queues s) → IsTold (queues t)
Step-IsTold e s t (divert k now n fresh received h) w =
    subst Tells h (divert_step-Tells k e.config n fresh e.args now received s w)
Step-IsTold e s t (sender k now h) w = subst Tells h (sender_step-Tells k now s w)
Step-IsTold e s t (receiver k now p received fresh h) w =
    subst Tells h (receiver_step-Tells k e.config now e.opt_reset e.parse p received s w)
Step-IsTold e s t (timer k now event h) w =
    subst Tells h (timer_step-Tells k e.node_size now event s w)

-- In every state that the program reaches, from empty trees and rings of `rb_size` and `rb_size
-- * 100` slots, the second number at most 2 ^ 31, and also when an entry has been freed that the
-- table has, both rings are valid, and the answers of the pool will meet their blocks: the last
-- messages told to the pool are, in order, those for the blocks that wait in `h_recv`, a request
-- for its packet and with that packet's ends, a release for an entry that has timed out or for
-- the last packet of one; the block that the sender still tries to push is the one its text is
-- about; and every block in `h_send`, or held for it, has the flags of a request, a release or a
-- timeout.
pub Reach-IsTold :
    (e : Env) (memory : ℕ → Node) (fresh_send fresh_recv : ℕ → ℕ) (rb_size : ℕ) (s : System)
    → rb_size * 100 ≤ 2 ^ 31
    → Reach e (start memory fresh_send fresh_recv rb_size) s
    → IsTold (queues s)
Reach-IsTold e memory fresh_send fresh_recv rb_size s small here =
    start-IsTold memory fresh_send fresh_recv rb_size small
Reach-IsTold e memory fresh_send fresh_recv rb_size s small (next {t} before step) =
    Step-IsTold e t s step (Reach-IsTold e memory fresh_send fresh_recv rb_size t small before)
