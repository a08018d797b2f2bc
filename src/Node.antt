-- ===== src/Node.antt =====
-- src/structure.h: the NAT entry `struct node`, the 64-bit keys of its two trees, and `mk_node`.
pub mod Keys
mod Examples
use natporte.Base.{
  ℕ, ◌+◌, ◌*◌, ◌/◌, ◌^◌, leb, ltb, ◌==◌, if◌then◌else◌, u8, u16, u32, bit_and, bit_or, Bytes,
  load16, Bool, true, false, ◌||◌,
}
use natporte.Base.Int.{ℤ, pos, negsuc}
use natporte.TcpState.{State}
use natporte.Packet.{ip_hl, ip_p, ip_src, ip_dst, l4, sport_at, dport_at, ipproto_tcp, ipproto_udp}

-- S_TIMER_LOOP, S_TIMER_CLOSE, S_TIMER_SILENT_CLOSE.
pub data TimerFlags : Type 0 where
  timer_loop timer_close timer_silent_close : TimerFlags

-- The `wan` and `lan` members: a port and an address in network order.
pub record Endpoint : Type 0 where
  pub port : ℕ
  pub ip : ℕ

-- `struct node` less its tree links.
pub record Node : Type 0 where
  pub ctime : ℕ
  pub atime : ℕ
  pub flags : State
  pub timer_flags : TimerFlags
  pub protocol : ℕ
  pub wan : Endpoint
  pub lan : Endpoint
  pub l2w_key : ℕ
  pub w2l_key : ℕ

abbrev pub protocol_mask : ℕ
protocol_mask = 0xffff000000000000

abbrev pub port_mask : ℕ
port_mask = 0x0000ffff00000000

abbrev pub ip_mask : ℕ
ip_mask = 0x00000000ffffffff

-- `var_lan` and `var_wan` on the members that they read.
unfoldable pub var : ℕ → Endpoint → ℕ
var protocol e =
    let a = bit_and (protocol * 2 ^ 48) protocol_mask in
    let b = bit_and (e.port * 2 ^ 32) port_mask in
    let c = bit_and e.ip ip_mask in bit_or (bit_or a b) c

unfoldable pub var_lan : Node → ℕ
unfolding var
var_lan n = var n.protocol n.lan

unfoldable pub var_wan : Node → ℕ
unfolding var
var_wan n = var n.protocol n.wan

unfoldable pub get_protocol_from_var_lan : ℕ → ℕ
get_protocol_from_var_lan v = u8 (bit_and v protocol_mask / 2 ^ 48)

unfoldable pub get_port_from_var_lan : ℕ → ℕ
get_port_from_var_lan v = u16 (bit_and v port_mask / 2 ^ 32)

unfoldable pub get_ip_from_var_lan : ℕ → ℕ
get_ip_from_var_lan v = u32 (bit_and v ip_mask)

abbrev compare_keys : ℕ → ℕ → ℤ
compare_keys lhs_cmp rhs_cmp =
    if ltb lhs_cmp rhs_cmp then negsuc 0 else if ltb rhs_cmp lhs_cmp then pos 1 else pos 0

unfoldable pub cmp_l2w : Node → Node → ℤ
cmp_l2w lhs rhs = compare_keys lhs.l2w_key rhs.l2w_key

unfoldable pub cmp_w2l : Node → Node → ℤ
cmp_w2l lhs rhs = compare_keys lhs.w2l_key rhs.w2l_key

-- The entry `n` with the packet's protocol and its two ends, ports as given.
abbrev pub with_ends : Bytes → Node → ℕ → ℕ → Node
with_ends buf n sport dport = record n {
  protocol = ip_p buf 0;
  lan = record { port = sport; ip = ip_src buf 0 };
  wan = record { port = dport; ip = ip_dst buf 0 };
}

-- TCP and UDP keep their ports at the same offsets. For another protocol the ports of `n` stay,
-- and on a short packet all of it; `false` is the -1 of the source.
unfoldable pub mk_node : Bytes → ℕ → Node → Bool × Node
mk_node buf size n =
    if leb size 20
    then (false, n)
    else if ip_p buf 0 == ipproto_tcp || ip_p buf 0 == ipproto_udp
    then (
      true,
      with_ends buf n (load16 buf (sport_at (l4 buf 0))) (load16 buf (dport_at (l4 buf 0))),
    )
    else (false, with_ends buf n n.lan.port n.wan.port)
