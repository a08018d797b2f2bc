-- ===== src/System/Samples.antt =====
-- Sample states of the whole program, which the tests of its threads share.
use natporte.Base.{ℕ, ◌<◌, ◌^◌, refl, true, [], none, arith}
use natporte.Base.Int.{pos}
use natporte.TcpState.{State}
use natporte.Node.{Node, var_lan, var_wan}
use natporte.RbTree.{leaf, node, black}
use natporte.Ring.{ring_init}
use natporte.Ring.Inv.{ring_init-IsValid}
use natporte.Table.Inv.{IsTable, IsEntry}
use natporte.Alias.{Globals}
use natporte.System.{System, Kernel, success, Sin}
use natporte.System.Inv.{IsSystem}
use natporte.Divert.{DivertArgs}
use natporte.Samples.{flow}

abbrev pub kernel : Kernel
kernel = record { sendto = success; kevent = true; send = true }

-- Interface 1 leads to the LAN, interface 2 to the WAN.
abbrev pub interfaces : DivertArgs
interfaces = record { lan_if_num = 1; wan_if_num = 2 }

abbrev pub sin_of : ℕ → Sin
sin_of ifname = record { port = 8668; addr = 0; ifname = ifname }

-- The entry of the sample flow, in the given state.
abbrev pub entry_in : ℕ → State → Node
entry_in protocol f = record (flow protocol) { flags = f }

abbrev pub system_with : Globals → System
system_with g = record {
  globals = g;
  fn_id = 0;
  timeout_tcp = pos 86400000;
  timeout_udp = pos 60000;
  h_send = ring_init (λ i. 0) 4;
  h_recv = ring_init (λ i. 0) 400;
  sent = [];
  kevs = [];
  notices = [];
  mesg = none;
  divert = none;
  timer = none;
  sender = none;
  pending = [];
  text = [];
  dangling = [];
}

-- One entry, behind the pointer 0.
abbrev pub system_in : ℕ → State → System
system_in protocol f = system_with (record {
  table = record {
    entry = λ p. entry_in protocol f;
    l2w = node black leaf 0 leaf;
    w2l = node black leaf 0 leaf;
  };
  icmp_bucket = record { local_ip = 0; foreign_ip = 0 };
})

pub system_with-IsSystem : (g : Globals) → IsTable g.table → IsSystem (system_with g)
system_with-IsSystem g w = record {
  table = w;
  send = (ring_init-IsValid (λ i. 0) 4 (omega arith)).0;
  recv = (ring_init-IsValid (λ i. 0) 400 (omega arith)).0;
  sound = refl;
}

pub system_in-IsSystem :
    (protocol : ℕ) (f : State) → protocol < 2 ^ 8 → IsSystem (system_in protocol f)
system_in-IsSystem protocol f small = system_with-IsSystem (system_in protocol f).globals (record {
  l2w_balanced = record { root = refl; no_red_red = (tt, tt); even = (refl, tt, tt) };
  w2l_balanced = record { root = refl; no_red_red = (tt, tt); even = (refl, tt, tt) };
  l2w_sorted = (tt, tt);
  w2l_sorted = (tt, tt);
  entries = λ p i. fits;
  in_w2l = λ p i. i;
  in_l2w = λ p i. i;
})
  where
    fits : IsEntry (entry_in protocol f)
    fits =
        unfold var_lan var_wan in
        record {
          lan_fits = omega arith;
          wan_fits = omega arith;
          l2w_keyed = refl;
          w2l_keyed = refl;
        }
