-- ===== src/Samples.antt =====
-- Sample packets, entries and options, which the tests of the packet path share.
use natporte.Base.{ℕ, ◌<◌, ◌^◌, refl, false, List, [], ◌∷◌, arith}
use natporte.TcpState.{syn_sent}
use natporte.Filter.{Config}
use natporte.Node.{Node, Endpoint, timer_loop, var, var_lan, var_wan}
use natporte.RbTree.{leaf, node, black}
use natporte.Table.Inv.{IsTable, IsEntry}
use natporte.Alias.{Globals}

abbrev pub config : Config
config = record {
  opt_hostid = false;
  opt_nagete_df = false;
  wan_if_mtu = 1500;
  lan_if_mtu = 1500;
  lan_addr = 0xc0a801fe ∷ [];
  wan_addr = 0xc0000201 ∷ [];
  icmp_wan_addr = 0x010200c0;
}

-- 192.168.1.1 port 1000 behind 192.0.2.1 port 4097.
abbrev pub flow : ℕ → Node
flow protocol =
    let lan : Endpoint = record { port = 0xe803; ip = 0x0101a8c0 } in
    let wan : Endpoint = record { port = 0x0110; ip = 0x010200c0 } in
    record {
      ctime = 0;
      atime = 0;
      flags = syn_sent;
      timer_flags = timer_loop;
      protocol = protocol;
      wan = wan;
      lan = lan;
      l2w_key = var protocol lan;
      w2l_key = var protocol wan;
    }

abbrev pub globals_of : ℕ → Globals
globals_of protocol = record {
  table = record {
    entry = λ p. flow protocol;
    l2w = node black leaf 0 leaf;
    w2l = node black leaf 0 leaf;
  };
  icmp_bucket = record { local_ip = 0; foreign_ip = 0 };
}

pub flow-IsEntry : (protocol : ℕ) → protocol < 2 ^ 8 → IsEntry (flow protocol)
unfolding var_lan var_wan
flow-IsEntry protocol small = record {
  lan_fits = omega arith;
  wan_fits = omega arith;
  l2w_keyed = refl;
  w2l_keyed = refl;
}

pub globals-IsTable : (protocol : ℕ) → protocol < 2 ^ 8 → IsTable (globals_of protocol).table
globals-IsTable protocol small = record {
  l2w_balanced = record { root = refl; no_red_red = (tt, tt); even = (refl, tt, tt) };
  w2l_balanced = record { root = refl; no_red_red = (tt, tt); even = (refl, tt, tt) };
  l2w_sorted = (tt, tt);
  w2l_sorted = (tt, tt);
  entries = λ p i. flow-IsEntry protocol small;
  in_w2l = λ p i. i;
  in_l2w = λ p i. i;
}

-- From 192.168.1.1 port 1000 to 8.8.8.8 port 53, and back to the translator.
abbrev pub request : List ℕ
request =
    0x45 ∷ 0x00 ∷ 0x00 ∷ 0x1e ∷ 0x00 ∷ 0x27 ∷ 0x00 ∷ 0x00 ∷ 0x40 ∷ 0x11 ∷ 0x00 ∷ 0x00 ∷ 0xc0 ∷ 0xa8
    ∷ 0x01 ∷ 0x01 ∷ 0x08 ∷ 0x08 ∷ 0x08 ∷ 0x08 ∷ 0x03 ∷ 0xe8 ∷ 0x00 ∷ 0x35 ∷ 0x00 ∷ 0x0a ∷ 0x12
    ∷ 0x34 ∷ 0xab ∷ 0xcd ∷ []

abbrev pub answer : List ℕ
answer =
    0x45 ∷ 0x00 ∷ 0x00 ∷ 0x1e ∷ 0x00 ∷ 0x27 ∷ 0x00 ∷ 0x00 ∷ 0x40 ∷ 0x11 ∷ 0x00 ∷ 0x00 ∷ 0x08 ∷ 0x08
    ∷ 0x08 ∷ 0x08 ∷ 0xc0 ∷ 0x00 ∷ 0x02 ∷ 0x01 ∷ 0x00 ∷ 0x35 ∷ 0x10 ∷ 0x01 ∷ 0x00 ∷ 0x0a ∷ 0x12
    ∷ 0x34 ∷ 0xab ∷ 0xcd ∷ []

-- A SYN on the same way and its SYN and ACK.
abbrev pub syn : List ℕ
syn =
    0x45 ∷ 0x00 ∷ 0x00 ∷ 0x28 ∷ 0x00 ∷ 0x27 ∷ 0x00 ∷ 0x00 ∷ 0x40 ∷ 0x06 ∷ 0x00 ∷ 0x00 ∷ 0xc0 ∷ 0xa8
    ∷ 0x01 ∷ 0x01 ∷ 0x08 ∷ 0x08 ∷ 0x08 ∷ 0x08 ∷ 0x03 ∷ 0xe8 ∷ 0x00 ∷ 0x50 ∷ 0x00 ∷ 0x00 ∷ 0x00
    ∷ 0xff ∷ 0x00 ∷ 0x00 ∷ 0x00 ∷ 0x00 ∷ 0x50 ∷ 0x02 ∷ 0x20 ∷ 0x00 ∷ 0x12 ∷ 0x34 ∷ 0x00 ∷ 0x00 ∷ []

abbrev pub syn_ack : List ℕ
syn_ack =
    0x45 ∷ 0x00 ∷ 0x00 ∷ 0x28 ∷ 0x00 ∷ 0x27 ∷ 0x00 ∷ 0x00 ∷ 0x40 ∷ 0x06 ∷ 0x00 ∷ 0x00 ∷ 0x08 ∷ 0x08
    ∷ 0x08 ∷ 0x08 ∷ 0xc0 ∷ 0x00 ∷ 0x02 ∷ 0x01 ∷ 0x00 ∷ 0x50 ∷ 0x10 ∷ 0x01 ∷ 0x00 ∷ 0x00 ∷ 0x00
    ∷ 0x01 ∷ 0x00 ∷ 0x00 ∷ 0x01 ∷ 0x00 ∷ 0x50 ∷ 0x12 ∷ 0x20 ∷ 0x00 ∷ 0x12 ∷ 0x34 ∷ 0x00 ∷ 0x00 ∷ []

-- An ACK from the LAN.
abbrev pub ack : List ℕ
ack =
    0x45 ∷ 0x00 ∷ 0x00 ∷ 0x28 ∷ 0x00 ∷ 0x27 ∷ 0x00 ∷ 0x00 ∷ 0x40 ∷ 0x06 ∷ 0x00 ∷ 0x00 ∷ 0xc0 ∷ 0xa8
    ∷ 0x01 ∷ 0x01 ∷ 0x08 ∷ 0x08 ∷ 0x08 ∷ 0x08 ∷ 0x03 ∷ 0xe8 ∷ 0x00 ∷ 0x50 ∷ 0x00 ∷ 0x00 ∷ 0x00
    ∷ 0xff ∷ 0x00 ∷ 0x00 ∷ 0x00 ∷ 0x01 ∷ 0x50 ∷ 0x10 ∷ 0x20 ∷ 0x00 ∷ 0x12 ∷ 0x34 ∷ 0x00 ∷ 0x00 ∷ []
