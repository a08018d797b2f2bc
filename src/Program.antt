-- ===== src/Program.antt =====
-- src/main.cpp: the state that `main` sets up, and the program as a whole, whose four threads take
-- their steps in any order.
pub mod Invariant
pub mod Order
mod Examples
use natporte.Base.{ℕ, ◌*◌, ◌≡◌, Bool, none, some, Option, List, [], Bytes}
use natporte.Base.Int.{pos}
use natporte.Filter.{Config}
use natporte.Node.{Node}
use natporte.RbTree.{leaf}
use natporte.Ring.{ring_init}
use natporte.System.{System, done, Kernel, Datagram}
use natporte.Divert.{DivertArgs, divert_step}
use natporte.Timer.{timer_step}
use natporte.Pool.{Message}
use natporte.Pool.Sender.{sender_step}
use natporte.Pool.Step.{receiver_step}
use natporte.RbTree.Shape.{to_list}
use natporte.RbTree.Members.{In}

-- `s_init` and both `ring_init`. The rest are globals, which start as 0; `memory` is what the
-- pointers to entries point to.
unfoldable pub start : (ℕ → Node) → (ℕ → ℕ) → (ℕ → ℕ) → ℕ → System
unfolding ring_init
start memory fresh_send fresh_recv rb_size = record {
  globals = record {
    table = record { entry = memory; l2w = leaf; w2l = leaf };
    icmp_bucket = record { local_ip = 0; foreign_ip = 0 };
  };
  fn_id = 0;
  timeout_tcp = pos 0;
  timeout_udp = pos 0;
  h_send = ring_init fresh_send rb_size;
  h_recv = ring_init fresh_recv (rb_size * 100);
  sent = [];
  kevs = [];
  notices = [];
  mesg = none;
  divert = none;
  timer = none;
  sender = none;
  pending = [];
  text = [];
  dangling = [];
}

-- What does not change while the program runs: the options and interfaces, the size of a node, and
-- the parser of the pool's messages.
pub record Env : Type 0 where
  pub config : Config
  pub args : DivertArgs
  pub node_size : ℕ
  pub opt_reset : Bool
  pub parse : List ℕ → Option Message

-- Memory that `malloc` may give: no entry of the table has it, unless that entry is freed.
abbrev pub IsUnused : System → ℕ → Type 0
IsUnused s p = In p (to_list s.globals.table.l2w) → In p s.dangling

-- A step of the divert thread, of the two pool threads, and of the timer loop.
pub data Step (e : Env) (s t : System) : Type 0 where
  divert :
      (k : Kernel) (now : ℕ) (n : Node) (fresh : Bytes) (received : Option Datagram)
      → divert_step k e.config e.args now n fresh received s ≡ done t
      → Step e s t
  sender : (k : Bool) (now : ℕ) → sender_step k now s ≡ done t → Step e s t
  receiver :
      (k : Kernel) (now p : ℕ) (received : Option (List ℕ))
      → IsUnused s p
      → receiver_step k e.config now e.opt_reset e.parse p received s ≡ done t
      → Step e s t
  timer :
      (k : Bool) (now : ℕ) (event : Option ℕ)
      → timer_step k e.node_size now event s ≡ done t
      → Step e s t

pub data Reach (e : Env) (s : System) : System → Type 0 where
  here : Reach e s s
  next : {t u : System} → Reach e s t → Step e t u → Reach e s u
