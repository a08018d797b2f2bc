-- ===== src/Alias.antt =====
-- src/alias.h: the translation of packets. This file has what both directions share, and the
-- packets that are turned round or only looked at.
pub mod Wan2lan
pub mod Lan2wan
pub mod Untouched
pub mod Rewrite
pub mod Entries
pub mod Turned
pub mod Reset
pub mod Sums
pub mod Flow
pub mod Reply
pub mod Flags
mod Examples
use natporte.Base.{
  ℕ, ◌+◌, ◌==◌, if◌then◌else◌, u32, htonl, Bytes, load16, load32, store8, store16, store32, Bool,
  true, false,
}
use natporte.Codes.{
  Verdict, through, reset_table, del_table, from_me, to_me, do_alias, no_table, too_short, do_drop,
  not_support, too_big,
}
use natporte.TcpState.{State, th_rst, th_ack, established}
use natporte.Node.{Node, timer_loop, var_lan, var_wan}
use natporte.Table.{Table, attach, set_entry}
use natporte.Packet.{
  ip_p, ip_src, ip_dst, l4, ip_sum_at, ip_src_at, ip_dst_at, sport_at, dport_at, th_flags_at,
  ipproto_icmp,
}
use natporte.Checksum.{set_checksum, set_diff_checksum}

-- `struct icmp_bucket`: the ends of the last echo request.
pub record Bucket : Type 0 where
  pub local_ip : ℕ
  pub foreign_ip : ℕ

-- The globals that the translation reads and writes.
pub record Globals : Type 0 where
  pub table : Table
  pub icmp_bucket : Bucket

-- What an alias function returns and leaves behind: its code, the packet and the globals.
pub record Aliased : Type 0 where
  pub verdict : Verdict
  pub buf : Bytes
  pub globals : Globals

abbrev pub aliased : Verdict → Bytes → Globals → Aliased
aliased v b g = record { verdict = v; buf = b; globals = g }

-- The `struct node n` on the stack, filled as for a lookup by the WAN end (by the LAN end). Its
-- other members stay unread.
unfoldable pub wan_probe : ℕ → ℕ → ℕ → Node
unfolding var_wan
wan_probe protocol port ip =
    let n : Node = record {
      ctime = 0;
      atime = 0;
      flags = established;
      timer_flags = timer_loop;
      protocol = protocol;
      wan = record { port = port; ip = ip };
      lan = record { port = 0; ip = 0 };
      l2w_key = 0;
      w2l_key = 0;
    } in
    record n { w2l_key = var_wan n }

unfoldable pub lan_probe : ℕ → ℕ → ℕ → Node
unfolding var_lan
lan_probe protocol port ip =
    let n : Node = record {
      ctime = 0;
      atime = 0;
      flags = established;
      timer_flags = timer_loop;
      protocol = protocol;
      wan = record { port = 0; ip = 0 };
      lan = record { port = port; ip = ip };
      l2w_key = 0;
      w2l_key = 0;
    } in
    record n { l2w_key = var_lan n }

-- The destination becomes the LAN end of the entry, in address, port and checksum.
unfoldable pub to_lan : Bytes → Node → Bytes
to_lan b t =
    let l4 = l4 b 0 in
    let b = store32 b (ip_dst_at 0) t.lan.ip in
    let b = store16 b (dport_at l4) t.lan.port in
    set_diff_checksum b 0 t.wan.ip t.wan.port t.lan.ip t.lan.port

-- The source becomes the WAN end of the entry, in address, port and checksum.
unfoldable pub to_wan : Bytes → Node → Bytes
to_wan b t =
    let l4 = l4 b 0 in
    let b = store32 b (ip_src_at 0) t.wan.ip in
    let b = store16 b (sport_at l4) t.wan.port in
    set_diff_checksum b 0 t.lan.ip t.lan.port t.wan.ip t.wan.port

-- `attach(table)` at the time `now`, and `table->flags = flags`.
abbrev pub attached : Globals → ℕ → ℕ → Globals
attached g p now = record g { table = attach g.table p now }

unfoldable pub set_flags : Globals → ℕ → State → Globals
set_flags g p flags = record g {
  table = set_entry g.table p (record (g.table.entry p) { flags = flags });
}

-- The segment is turned into a reset for its sender. `th_seq` is at 4, `th_ack` at 8 of the TCP
-- header; the acknowledged number is counted up in network order.
unfoldable pub tcp_reset_alias : Bytes → ℕ → Bytes
tcp_reset_alias b size =
    let l4 = l4 b 0 in
    let tmp32 = ip_src b 0 in
    let b = store32 b (ip_src_at 0) (ip_dst b 0) in
    let b = store32 b (ip_dst_at 0) tmp32 in
    let tmp16 = load16 b (sport_at l4) in
    let b = store16 b (sport_at l4) (load16 b (dport_at l4)) in
    let b = store16 b (dport_at l4) tmp16 in
    let b = store8 b (th_flags_at l4) (th_rst + th_ack) in
    let b = store32 b (l4 + 8) (u32 (load32 b (l4 + 4) + htonl 1)) in
    let b = store32 b (l4 + 4) 0 in set_checksum b 0 size

-- A packet on another interface: an ICMP packet fills the bucket.
unfoldable pub other_if_check : Bytes → Globals → Aliased
other_if_check b g =
    if ip_p b 0 == ipproto_icmp
    then aliased through (store16 b (ip_sum_at 0) 0)
        (record g { icmp_bucket = record { local_ip = ip_src b 0; foreign_ip = ip_dst b 0 } })
    else aliased through b g
