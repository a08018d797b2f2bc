-- ===== src/Timer.antt =====
-- src/main.cpp: the loop of the main thread over the timers' events.
pub mod Fires
pub mod Keeps
pub mod Told
mod Examples
use natporte.Base.{
  ℕ, ◌+◌, ◌==◌, ltb, if◌then◌else◌, not, Bool, true, false, bit_or, Option, none, some,
}
use natporte.Base.Int.{ℤ, pos, negsuc}
use natporte.TcpState.{established}
use natporte.Node.{
  Node, TimerFlags, timer_loop, var_lan, get_protocol_from_var_lan, get_port_from_var_lan,
  get_ip_from_var_lan,
}
use natporte.Packet.{ipproto_tcp, ipproto_udp}
use natporte.Table.{find_l2w}
use natporte.Ring.{Slot, ring_s_push}
use natporte.System.{
  ap_timeout, ap_addrpool, Payload, entry, Outcome, done, exits, ◌>>=◌, System, is_ok,
}
use natporte.System.Events.{quotient, del_timer_event_tcp, del_timer_event_udp}

-- `elapse > timeout / 1000` for `elapse = now - atime`, both signed.
unfoldable pub longer : ℕ → ℕ → ℤ → Bool
longer now atime (pos seconds) = ltb (atime + seconds) now
longer now atime (negsuc n) = ltb atime (now + (n + 1))

unfoldable pub expired : ℕ → ℕ → ℤ → Bool
unfolding longer quotient
expired now atime timeout = longer now atime (quotient timeout 1000)

unfoldable pub is_loop : TimerFlags → Bool
is_loop timer_loop = true
is_loop f = false

-- The node on the stack, with the protocol and the LAN end that the timer's name holds.
unfoldable pub timer_probe : ℕ → Node
unfolding var_lan get_protocol_from_var_lan get_port_from_var_lan get_ip_from_var_lan
timer_probe ident =
    let n : Node = record {
      ctime = 0;
      atime = 0;
      flags = established;
      timer_flags = timer_loop;
      protocol = get_protocol_from_var_lan ident;
      wan = record { port = 0; ip = 0 };
      lan = record { port = get_port_from_var_lan ident; ip = get_ip_from_var_lan ident };
      l2w_key = 0;
      w2l_key = 0;
    } in
    record n { l2w_key = var_lan n }

-- `node_size` is `sizeof(struct node)`.
abbrev pub timeout_block : ℕ → ℕ → Slot Payload
timeout_block node_size p = record {
  buffer = some (entry p);
  size = node_size;
  opaque = bit_or ap_timeout ap_addrpool;
}

-- One try to push the block that the thread holds; it keeps trying until RING_OK.
unfoldable pub timer_push : Slot Payload → System → System
unfolding ring_s_push is_ok
timer_push r s =
    let (status, h) = ring_s_push s.h_send r in
    record s { h_send = h; timer = if is_ok status then none else some r }

-- The entry `p`, whose timer has run down: its flags end it when its time has not.
unfoldable pub timer_entry : Bool → ℕ → ℕ → ℕ → ℕ → System → Outcome System
unfolding expired is_loop timer_push del_timer_event_tcp del_timer_event_udp
timer_entry k node_size now ident p s =
    let t = s.globals.table.entry p in
    let push = λ (s : System). done (timer_push (timeout_block node_size p) s) in
    let closing =
      if not (is_loop t.timer_flags) then del_timer_event_tcp k ident s >>= push else done s in
    if t.protocol == ipproto_tcp
    then if expired now t.atime s.timeout_tcp
      then del_timer_event_tcp k ident s >>= push
      else closing
    else if t.protocol == ipproto_udp
    then if expired now t.atime s.timeout_udp
      then del_timer_event_udp k ident s >>= push
      else closing
    else done s

-- One step of the thread: another try to push, or the event of a timer. The name 1 is that of the
-- table dump, which only a debug build has; `none` is a failure of `kevent`.
unfoldable pub timer_step : Bool → ℕ → ℕ → Option ℕ → System → Outcome System
unfolding timer_push timer_entry timer_probe find_l2w
timer_step k node_size now event s = elim s.timer [
  | some r ↦ done (timer_push r s)
  | none ↦ elim event [
    | none ↦ exits
    | some ident ↦
        if ident == 1 then done s else elim (find_l2w s.globals.table (timer_probe ident)) [
          | none ↦ done s
          | some p ↦ timer_entry k node_size now ident p s
        ]
  ]
]
