-- ===== src/Divert/Examples.antt =====
-- Packets through the divert thread.
use natporte.Base.{
  ℕ, ◌≡◌, ◌≢◌, refl, some, from_list, from_list-IsBytes, load16, load32, htonl, htons, arith,
}
use natporte.TcpState.{established, closing_l2w, closing_w2l, tcp_state_check, has}
use natporte.Filter.{
  chk_selfaddr, chk_drop, is_too_big, is_private, is_class_d, has_df, is_local, is_loopback,
}
use natporte.RbTree.{find}
use natporte.Table.{find_l2w, find_w2l, set_entry}
use natporte.Alias.{wan_probe, lan_probe, to_lan, to_wan, set_flags}
use natporte.Alias.Wan2lan.{wan2lan_alias}
use natporte.Alias.Lan2wan.{lan2wan_alias}
use natporte.System.{System, done, success, other_error, Datagram}
use natporte.System.Inv.{Runs}
use natporte.System.Samples.{kernel, interfaces, sin_of, entry_in, system_in, system_in-IsSystem}
use natporte.Pool.{zero_node}
use natporte.Divert.{lan, wan, outward, divert_packet, divert_step}
use natporte.Divert.Laws.{divert_step-Runs}
use natporte.Divert.Close.{Closed, wan-Closed, lan-Closed}
use natporte.Samples.{config, request, syn_ack, ack}

abbrev segment_from_wan : Datagram
segment_from_wan = record { buf = from_list syn_ack; size = 40; sin = sin_of 2 }

abbrev segment_from_lan : Datagram
segment_from_lan = record { buf = from_list ack; size = 40; sin = sin_of 1 }

success_ne : success ≢ other_error
success_ne e = cc

divert_step-Runs_example : Runs (system_in 17 established) (
    divert_step kernel config interfaces 7 zero_node
      (from_list request)
      (some (record { buf = from_list request; size = 30; sin = sin_of 1 }))
      (system_in 17 established))
divert_step-Runs_example =
    divert_step-Runs kernel config zero_node (from_list request) success_ne refl (λ e. cc)
      interfaces 7 (record { buf = from_list request; size = 30; sin = sin_of 1 })
      (system_in 17 established) (system_in-IsSystem 17 established (omega arith))

wan-Closed_example :
    (p : ℕ) × (t : System) × (find_w2l
        (system_in 6 closing_w2l).globals.table
        (wan_probe 6 0x0110 0x010200c0)
      ≡ some p)
    × (divert_packet kernel config 7 zero_node
          (from_list ack)
          wan
          segment_from_wan
          (system_in 6 closing_w2l)
        ≡ done t)
    × Closed (system_in 6 closing_w2l) t p (record {
      buf = to_lan (from_list syn_ack) (entry_in 6 closing_w2l);
      size = 40;
      sin = outward (sin_of 2);
    })
unfolding wan2lan_alias chk_selfaddr chk_drop is_too_big load32 load16 htonl is_private is_class_d
    is_local is_loopback has_df htons find_w2l find wan_probe tcp_state_check has set_flags
    set_entry
wan-Closed_example =
    wan-Closed kernel config 7 zero_node (from_list ack) segment_from_wan (system_in 6 closing_w2l)
      (system_in-IsSystem 6 closing_w2l (omega arith)) (from_list-IsBytes syn_ack (omega arith))
      (omega arith) success_ne refl refl

lan-Closed_example :
    (p : ℕ) × (t : System) × (find_l2w
        (system_in 6 closing_l2w).globals.table
        (lan_probe 6 0xe803 0x0101a8c0)
      ≡ some p)
    × (divert_packet kernel config 7 zero_node
          (from_list ack)
          lan
          segment_from_lan
          (system_in 6 closing_l2w)
        ≡ done t)
    × Closed (system_in 6 closing_l2w) t p (record {
      buf = to_wan (from_list ack) (entry_in 6 closing_l2w);
      size = 40;
      sin = outward (sin_of 1);
    })
unfolding lan2wan_alias chk_selfaddr chk_drop is_too_big load32 load16 htonl is_private is_class_d
    is_local is_loopback has_df htons find_l2w find lan_probe tcp_state_check has set_flags
    set_entry
lan-Closed_example =
    lan-Closed kernel config 7 zero_node (from_list ack) segment_from_lan (system_in 6 closing_l2w)
      (system_in-IsSystem 6 closing_l2w (omega arith)) (from_list-IsBytes ack (omega arith))
      (omega arith) success_ne refl refl
