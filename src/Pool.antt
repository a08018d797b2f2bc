-- ===== src/Pool.antt =====
-- src/addrpool.h: the two threads that talk to the address pool, a server that hands out the
-- addresses and ports of the WAN. This file has what both share.
pub mod Lines
pub mod Sender
pub mod Receiver
pub mod Step
pub mod Chunks
pub mod Keeps
pub mod Told
pub mod Taken
pub mod Frame
pub mod Answers
pub mod Handled
pub mod Granted
pub mod Opened
pub mod Granting
mod Examples
use natporte.Base.{ℕ, htonl, htons}
use natporte.Base.Int.{ℤ}
use natporte.TcpState.{established}
use natporte.Node.{Node, timer_loop}
use natporte.System.{Ends, Sin}

-- `memset(&n, 0, sizeof(n))`.
abbrev pub zero_node : Node
zero_node = record {
  ctime = 0;
  atime = 0;
  flags = established;
  timer_flags = timer_loop;
  protocol = 0;
  wan = record { port = 0; ip = 0 };
  lan = record { port = 0; ip = 0 };
  l2w_key = 0;
  w2l_key = 0;
}

-- The members of a message from those of a node.
abbrev pub ends_of : Node → Ends
ends_of n = record {
  protocol = n.protocol;
  lan_ip = htonl n.lan.ip;
  wan_ip = htonl n.wan.ip;
  lan_port = htons n.lan.port;
  wan_port = htons n.wan.port;
}

-- A node with the members of a message.
abbrev pub with_members : Node → Ends → Node
with_members n e = record n {
  protocol = e.protocol;
  wan = record { port = htons e.wan_port; ip = htonl e.wan_ip };
  lan = record { port = htons e.lan_port; ip = htonl e.lan_ip };
}

-- The address that the receiver sends packets with.
abbrev pub pool_sin : Sin
pool_sin = record { port = 0xfffe; addr = 0; ifname = 0 }

-- The messages of the pool that the receiver tells apart, as read by the JSON parser.
pub data Message : Type 0 where
  request_ack : Ends → Message
  request_discard : Message
  release_ack : Ends → Message
  release_discard : Message
  initialize : ℤ → ℤ → Message
  other : Message
