-- ===== src/Program/Examples.antt =====
-- The first packet after the start: it has no entry, so the pool is asked.
use mathlib.Core.Option.{some-injective}
use natporte.Pool.Handled.{FitsMessage}
use natporte.Base.{
  ◌≡◌, refl, subst, some, true, false, from_list, load16, load32, htonl, htons, arith,
}
use natporte.Filter.{chk_selfaddr, chk_drop, is_too_big, is_private, is_class_d, has_df}
use natporte.RbTree.{find}
use natporte.Table.{find_l2w}
use natporte.Alias.{lan_probe}
use natporte.Alias.Lan2wan.{lan2wan_alias}
use natporte.System.{System, Outcome, done, Datagram}
use natporte.System.Inv.{IsSystem}
use natporte.System.Samples.{kernel, interfaces, sin_of}
use natporte.Pool.{zero_node, other}
use natporte.Divert.{lan, divert_step, ask_pool}
use natporte.Program.{sender, start, Env, divert, here, next}
use natporte.Program.Invariant.{Reach-IsSystem}
use natporte.Ring.{ring_pop_condblock, ring_push}
use natporte.System.Frame.{queues}
use natporte.System.Told.{IsTold}
use natporte.Pool.Sender.{sender_step}
use natporte.Program.Order.{Reach-IsTold}
use natporte.Samples.{config, request}

abbrev env : Env
env = record {
  config = config;
  args = interfaces;
  node_size = 200;
  opt_reset = false;
  parse = λ line. some other;
}

abbrev started : System
started = start (λ p. zero_node) (λ i. 0) (λ i. 0) 50

abbrev received : Datagram
received = record { buf = from_list request; size = 30; sin = sin_of 1 }

abbrev asked : System
asked = ask_pool (from_list request) lan (from_list request) 30 started

asks :
    divert_step kernel config interfaces 7 zero_node (from_list request) (some received) started
    ≡ done asked
unfolding divert_step lan2wan_alias chk_selfaddr chk_drop is_too_big load32 load16 htonl is_private
    is_class_d has_df htons find_l2w find lan_probe start
asks = refl

Reach-IsSystem_example : IsSystem asked
unfolding ask_pool start
Reach-IsSystem_example =
    Reach-IsSystem env (λ p. zero_node) (λ i. 0) (λ i. 0) 50 asked (omega arith)
      (λ line m e. subst (λ n. FitsMessage n) (some-injective _ _ e) tt)
      (next here (divert kernel 7 zero_node (from_list request) (some received) asks)) (tt, refl)

-- The sender takes the block, queues it for the answer and tells the pool.
abbrev after : Outcome System → System → System
after (done t) s = t
after r s = s

abbrev told : System
told = after (sender_step true 7 asked) asked

tells : sender_step true 7 asked ≡ done told
unfolding sender_step start ask_pool ring_pop_condblock ring_push
tells = refl

Reach-IsTold_example : IsTold (queues told)
Reach-IsTold_example =
    Reach-IsTold env (λ p. zero_node) (λ i. 0) (λ i. 0) 50 told (omega arith)
      (next (next here (divert kernel 7 zero_node (from_list request) (some received) asks))
        (sender true 7 tells))
