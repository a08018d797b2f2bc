-- ===== src/Alias/Examples.antt =====
-- Packets of one flow each over UDP and TCP, through a table of one entry.
use natporte.Base.{
  ◌^◌, ◌≡◌, inl, ◌≢◌, ◌↔◌, ◌+◌, ◌*◌, ◌-◌, ◌%◌, refl, sym, from_list, from_list-IsBytes, load16,
  load32, store16, store32, htonl, htons, true, arith,
}
use natporte.Codes.{do_alias, from_lan2wan, from_wan2lan}
use natporte.TcpState.{th_rst, th_ack, synack_recived, tcp_state_check, has, has_all}
use natporte.Filter.{
  chk_selfaddr, chk_drop, is_too_big, is_private, is_class_d, has_df, is_local, is_loopback,
}
use natporte.Node.{var}
use natporte.Packet.{ip_p, ip_src, ip_dst, ip_hl, l4, sport_at, dport_at, th_flags_at}
use natporte.RbTree.{find}
use natporte.Table.{set_entry, attach, find_l2w, find_w2l}
use natporte.Table.Inv.{IsTable}
use natporte.Alias.{
  tcp_reset_alias, Aliased, aliased, attached, set_flags, lan_probe, wan_probe, to_wan,
}
use natporte.Checksum.{set_diff_checksum, checksum, pseudo_sum}
use natporte.Alias.Wan2lan.{wan2lan_alias}
use natporte.Alias.Lan2wan.{lan2wan_alias}
use natporte.Alias.Untouched.{is_translated, wan2lan_alias-untouched, lan2wan_alias-untouched}
use natporte.Alias.Entries.{alias-IsTable}
use natporte.Alias.Flags.{Follows, wan2lan_alias-Follows, lan2wan_alias-Follows}
use natporte.Alias.Reset.{tcp_reset_alias-ack_iff, tcp_reset_alias-answers}
use natporte.Alias.Sums.{to_wan-checksum_iff}
use natporte.Checksum.Diff.{sum_field, carry}
use natporte.Alias.Rewrite.{to_wan-ends}
use natporte.Alias.Reply.{udp-reply, tcp-reply}
use natporte.Samples.{config, flow, globals_of, globals-IsTable, request, answer, syn, syn_ack}

udp-reply_example :
    let back =
      wan2lan_alias config 8
        (from_list answer)
        30
        (lan2wan_alias config 7 (from_list request) 30 (globals_of 17)).globals in
    (back.verdict ≡ do_alias)
    × (ip_dst back.buf 0 ≡ ip_src (from_list request) 0)
    × (load16 back.buf (dport_at (l4 (from_list answer) 0))
        ≡ load16 (from_list request) (sport_at (l4 (from_list request) 0)))
unfolding lan2wan_alias chk_selfaddr chk_drop is_too_big load32 load16 htonl is_private is_class_d
    has_df htons find_l2w find lan_probe is_local is_loopback to_wan set_diff_checksum store16
    store32
udp-reply_example =
    udp-reply config 7 8 (from_list request) (from_list answer) 30 30 (globals_of 17)
      (from_list-IsBytes request (omega arith)) (globals-IsTable 17 (omega arith)) (omega arith)
      (omega arith) refl refl refl refl (refl, refl, refl, refl) refl refl

-- What becomes of the SYN.
abbrev syn_out : Aliased
syn_out =
    aliased do_alias (to_wan (from_list syn) (record (flow 6) { flags = synack_recived }))
      (attached (set_flags (globals_of 6) 0 synack_recived) 0 7)

syn_goes : lan2wan_alias config 7 (from_list syn) 40 (globals_of 6) ≡ syn_out
unfolding lan2wan_alias chk_selfaddr chk_drop is_too_big load32 load16 htonl is_private is_class_d
    has_df htons find_l2w find lan_probe tcp_state_check has set_flags set_entry
syn_goes = refl

syn_ends :
    (ip_src (to_wan (from_list syn) (record (flow 6) { flags = synack_recived })) 0 ≡ 0x010200c0)
    × (load16 (to_wan (from_list syn) (record (flow 6) { flags = synack_recived })) 20 ≡ 0x0110)
syn_ends =
    let e =
      to_wan-ends (from_list syn) (record (flow 6) { flags = synack_recived }) (omega arith)
        (omega arith) (omega arith) in
    (e.0, e.1)

syn_ack_taken :
    is_translated (wan2lan_alias config 8 (from_list syn_ack) 40 syn_out.globals).verdict ≡ true
unfolding wan2lan_alias chk_selfaddr chk_drop is_too_big load32 load16 htonl is_private is_class_d
    is_local is_loopback has_df htons find_w2l find wan_probe tcp_state_check has has_all set_flags
    set_entry attach
syn_ack_taken = refl

tcp-reply_example :
    let back =
      wan2lan_alias config 8
        (from_list syn_ack)
        40
        (lan2wan_alias config 7 (from_list syn) 40 (globals_of 6)).globals in
    (ip_dst back.buf 0 ≡ ip_src (from_list syn) 0)
    × (load16 back.buf (dport_at (l4 (from_list syn_ack) 0))
        ≡ load16 (from_list syn) (sport_at (l4 (from_list syn) 0)))
tcp-reply_example =
    tcp-reply config 7 8 (from_list syn) (from_list syn_ack) 40 40 (globals_of 6)
      (from_list-IsBytes syn (omega arith)) (globals-IsTable 6 (omega arith)) (omega arith)
      (omega arith) refl refl (rw syn_goes refl) (rw syn_goes (unfold load32 in sym syn_ends.0))
      (rw syn_goes (unfold load16 in sym syn_ends.1)) (rw syn_goes syn_ack_taken)

alias-IsTable_example :
    IsTable (wan2lan_alias config 8 (from_list answer) 30 (globals_of 17)).globals.table
    × IsTable (lan2wan_alias config 8 (from_list answer) 30 (globals_of 17)).globals.table
alias-IsTable_example =
    alias-IsTable config 8 (from_list answer) 30 (globals_of 17) (globals-IsTable 17 (omega arith))

-- A datagram that no entry is for: from the WAN it goes to the host, from the LAN it asks for an
-- entry.
wan2lan_alias-untouched_example :
    (wan2lan_alias config 8 (from_list answer) 30 (globals_of 6)).buf ≡ from_list answer
unfolding wan2lan_alias chk_selfaddr chk_drop is_too_big load32 load16 htonl is_private is_class_d
    is_local is_loopback has_df htons find_w2l find wan_probe var
wan2lan_alias-untouched_example =
    wan2lan_alias-untouched config 8 (from_list answer) 30 (globals_of 6) refl

lan2wan_alias-untouched_example :
    (lan2wan_alias config 8 (from_list request) 30 (globals_of 6)).buf ≡ from_list request
unfolding lan2wan_alias chk_selfaddr chk_drop is_too_big load32 load16 htonl is_private is_class_d
    is_local is_loopback has_df htons find_l2w find lan_probe var
lan2wan_alias-untouched_example =
    lan2wan_alias-untouched config 8 (from_list request) 30 (globals_of 6) refl refl

wan2lan_alias-Follows_example :
    Follows 8
      (from_list syn_ack)
      (globals_of 6)
      0
      from_wan2lan
      (find_w2l (globals_of 6).table (
        wan_probe
          (ip_p (from_list syn_ack) 0)
          (load16 (from_list syn_ack) (dport_at (l4 (from_list syn_ack) 0)))
          (ip_dst (from_list syn_ack) 0)))
      (wan2lan_alias config 8 (from_list syn_ack) 40 (globals_of 6)).globals
wan2lan_alias-Follows_example =
    wan2lan_alias-Follows 8 (from_list syn_ack) (globals_of 6) 0 config 40

lan2wan_alias-Follows_example :
    Follows 8
      (from_list syn)
      (globals_of 6)
      0
      from_lan2wan
      (find_l2w (globals_of 6).table (
        lan_probe
          (ip_p (from_list syn) 0)
          (load16 (from_list syn) (sport_at (l4 (from_list syn) 0)))
          (ip_src (from_list syn) 0)))
      (lan2wan_alias config 8 (from_list syn) 40 (globals_of 6)).globals
lan2wan_alias-Follows_example = lan2wan_alias-Follows config 8 (from_list syn) 40 (globals_of 6) 0

-- The SYN's sequence number ends in 255, so the number acknowledged is wrong.
tcp_reset_alias-ack_iff_example :
    (htonl (load32 (tcp_reset_alias (from_list syn) 40) (l4 (from_list syn) 0 + 8))
      ≡ (htonl (load32 (from_list syn) (l4 (from_list syn) 0 + 4)) + 1) % 2 ^ 32)
    ↔ (from_list syn (l4 (from_list syn) 0 + 4 + 3) ≢ 255)
tcp_reset_alias-ack_iff_example =
    tcp_reset_alias-ack_iff (from_list syn) (from_list-IsBytes syn (omega arith)) 40 (omega arith)
      refl

tcp_reset_alias-answers_example :
    let b = from_list syn in
    let l = l4 b 0 in
    let b' = tcp_reset_alias b 40 in
    (ip_src b' 0 ≡ ip_dst b 0)
    × (ip_dst b' 0 ≡ ip_src b 0)
    × (load16 b' (sport_at l) ≡ load16 b (dport_at l))
    × (load16 b' (dport_at l) ≡ load16 b (sport_at l))
    × (b' (th_flags_at l) ≡ th_rst + th_ack)
    × (load32 b' (l + 4) ≡ 0)
    × (checksum b' l (40 - ip_hl b 0 * 4) (pseudo_sum b' 0 40) ≡ 0)
tcp_reset_alias-answers_example =
    tcp_reset_alias-answers (from_list syn) (from_list-IsBytes syn (omega arith)) 40 (omega arith)
      (omega arith) (omega arith) refl

to_wan-checksum_iff_example :
    let b = from_list syn in
    let f = sum_field b 0 in
    ((load16 (to_wan b (flow 6)) f + 0x010200c0 + 0x0110) % 65535
      ≡ (load16 b f + 0x0101a8c0 + 0xe803) % 65535)
    ↔ (carry 0x0101a8c0 0xe803 ≡ carry 0x010200c0 0x0110)
to_wan-checksum_iff_example =
    to_wan-checksum_iff (from_list syn) (from_list-IsBytes syn (omega arith)) (flow 6) (omega arith)
      (inl refl) (omega arith) (omega arith) (omega arith) (omega arith)
