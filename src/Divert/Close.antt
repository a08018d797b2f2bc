-- ===== src/Divert/Close.antt =====
-- src/divert.h: the segment that closes a connection, and the entry that it leaves to the timer.
use natporte.Base.{
  ℕ, ◌≤◌, ◌≡◌, ◌≢◌, refl, sym, ap, ◌∙◌, true, some, ◌∷◌, Bytes, IsBytes, load16, load16-lt,
  load32-lt, arith,
}
use natporte.Base.Int.{pos}
use natporte.Codes.{del_table}
use natporte.TcpState.{closed}
use natporte.Filter.{Config}
use natporte.Node.{Node, timer_close, var_lan, var_wan}
use natporte.Packet.{ip_hl, ip_p, ip_src, ip_dst, l4, sport_at, dport_at}
use natporte.Table.{find_l2w, find_w2l, set_entry}
use natporte.Table.Inv.{find_l2w-lan, find_w2l-wan}
use natporte.Alias.{Globals, wan_probe, lan_probe, to_lan, to_wan}
use natporte.Alias.Wan2lan.{wan2lan_alias}
use natporte.Alias.Lan2wan.{lan2wan_alias}
use natporte.Alias.Entries.{Keeps, IsTable-Keeps, wan2lan_alias-Keeps, lan2wan_alias-Keeps}
use natporte.System.{System, done, Kernel, Datagram, other_error, ev_add, ev_delete}
use natporte.System.Inv.{IsSystem, send_packet_done}
use natporte.System.Closing.{closing}
use natporte.Divert.{Side, lan, wan, entry_of, act, divert_packet, outward}
use natporte.Divert.Release.{wan2lan_alias-Closes, lan2wan_alias-Closes}
use natporte.Divert.Ends.{entry_of-wan, entry_of-lan, key_of-wan, key_of-lan}

-- The entry `p` is closed and left to its timer, and the segment goes out.
pub record Closed (s t : System) (p : ℕ) (d : Datagram) : Type 0 where
  pub flags : (t.globals.table.entry p).flags ≡ closed
  pub timer : (t.globals.table.entry p).timer_flags ≡ timer_close
  pub kevs :
      let ident = (s.globals.table.entry p).l2w_key in
      t.kevs ≡ ev_add ident (pos 400) ∷ ev_delete ident ∷ s.kevs
  pub sent : t.sent ≡ d ∷ s.sent

module _ (k : Kernel) (c : Config) (now : ℕ) (n : Node) (fresh : Bytes) (d : Datagram) (s : System)
    (good : IsSystem s) (bytes : IsBytes d.buf) (header : 5 ≤ ip_hl d.buf 0)
    (network : k.sendto ≢ other_error) (timers : k.kevent ≡ true) where
  -- From the state after the translation to that after the step.
  closing-Closed :
      (g : Globals) (p : ℕ) (e : Datagram)
      → Keeps s.globals g
      → (g.table.entry p).flags ≡ closed
      → let u = closing p (pos 400) (record s { globals = g }) in
        Closed s (record u { sent = e ∷ u.sent }) p e
  unfolding set_entry
  closing-Closed g p e keeps was = record {
    flags = ground arith;
    timer = ground arith;
    kevs = rw (ap (λ (m : Node). m.l2w_key) (keeps.2 p)) refl;
    sent = refl;
  }

  -- The verdict acts on the entry that the lookup finds.
  act_del :
      (side : Side) (b out : Bytes) (u : System) (p : ℕ)
      → b ≡ out
      → entry_of side b d.size n u.globals.table ≡ some p
      → let e : Datagram = record { buf = out; size = d.size; sin = outward d.sin } in
        act k c n fresh side d.sin del_table b d.size u
        ≡ done (record (closing p (pos 400) u) { sent = e ∷ u.sent })
  unfolding act
  act_del side b out u p made found =
      rw (found, act, timers, made) (send_packet_done k.sendto _ _ network)

  -- When a segment from the WAN closes its connection, ALIAS_DEL_TABLE, in a good state and with
  -- an IP header of at least 20 bytes, the divert thread finds the very entry that the segment
  -- belongs to by the end it was rewritten to: that entry is closed, marked for its timer, and
  -- its timer set to 400 ms, and the segment goes out rewritten to the entry's LAN end, if the
  -- operating system takes both.
  pub wan-Closed :
      (wan2lan_alias c now d.buf d.size s.globals).verdict ≡ del_table
      → (p : ℕ) × (t : System) × (find_w2l s.globals.table
            (wan_probe (ip_p d.buf 0) (load16 d.buf (dport_at (l4 d.buf 0))) (ip_dst d.buf 0))
          ≡ some p)
        × (divert_packet k c now n fresh wan d s ≡ done t)
        × Closed s t p (record {
          buf = to_lan d.buf (s.globals.table.entry p);
          size = d.size;
          sin = outward d.sin;
        })
  unfolding divert_packet wan_probe var_wan var_lan
  wan-Closed del =
      let (tcp, long, p, found, closes) = wan2lan_alias-Closes c now d.buf d.size s.globals del in
      let r = wan2lan_alias c now d.buf d.size s.globals in
      let keeps = wan2lan_alias-Keeps c now d.buf d.size s.globals in
      let probe =
        wan_probe (ip_p d.buf 0) (load16 d.buf (dport_at (l4 d.buf 0))) (ip_dst d.buf 0) in
      let (here, protocol, end) =
        find_w2l-wan s.globals.table probe p good.table
          (record {
            protocol_u8 = bytes 9;
            port_u16 = load16-lt d.buf _ bytes;
            ip_u32 = load32-lt d.buf _ bytes;
          })
          refl found in
      let m = s.globals.table.entry p in
      let w = good.table.entries p here in
      let key =
        key_of-wan d.buf r.buf m header w.lan_fits.ip_u32 w.lan_fits.port_u16 protocol closes.0 in
      let e : Datagram = record { buf = to_lan d.buf m; size = d.size; sin = outward d.sin } in
      let u = closing p (pos 400) (record s { globals = r.globals }) in
      (
        p,
        record u { sent = e ∷ u.sent },
        found,
        rw del (
            act_del wan r.buf (to_lan d.buf m) (record s { globals = r.globals }) p closes.0
              (entry_of-wan r.buf d.size n r.globals.table p
                (IsTable-Keeps s.globals r.globals keeps good.table) (rw keeps.0 here) long
                (key.0 ∙ tcp)
                (key.1 ∙ sym w.l2w_keyed ∙ sym (ap (λ (x : Node). x.l2w_key) (keeps.2 p))))),
        closing-Closed r.globals p e keeps closes.1,
      )

  -- When a segment from the LAN closes its connection, ALIAS_DEL_TABLE, in a good state and with
  -- an IP header of at least 20 bytes, the divert thread finds the very entry that the segment
  -- belongs to by the end it was rewritten to: that entry is closed, marked for its timer, and
  -- its timer set to 400 ms, and the segment goes out rewritten to the entry's WAN end, if the
  -- operating system takes both.
  pub lan-Closed :
      (lan2wan_alias c now d.buf d.size s.globals).verdict ≡ del_table
      → (p : ℕ) × (t : System) × (find_l2w s.globals.table
            (lan_probe (ip_p d.buf 0) (load16 d.buf (sport_at (l4 d.buf 0))) (ip_src d.buf 0))
          ≡ some p)
        × (divert_packet k c now n fresh lan d s ≡ done t)
        × Closed s t p (record {
          buf = to_wan d.buf (s.globals.table.entry p);
          size = d.size;
          sin = outward d.sin;
        })
  unfolding divert_packet lan_probe var_lan var_wan
  lan-Closed del =
      let (tcp, long, p, found, closes) = lan2wan_alias-Closes c now d.buf d.size s.globals del in
      let r = lan2wan_alias c now d.buf d.size s.globals in
      let keeps = lan2wan_alias-Keeps c now d.buf d.size s.globals in
      let probe =
        lan_probe (ip_p d.buf 0) (load16 d.buf (sport_at (l4 d.buf 0))) (ip_src d.buf 0) in
      let (here, protocol, end) =
        find_l2w-lan s.globals.table probe p good.table
          (record {
            protocol_u8 = bytes 9;
            port_u16 = load16-lt d.buf _ bytes;
            ip_u32 = load32-lt d.buf _ bytes;
          })
          refl found in
      let m = s.globals.table.entry p in
      let w = good.table.entries p here in
      let key =
        key_of-lan d.buf r.buf m header w.wan_fits.ip_u32 w.wan_fits.port_u16 protocol closes.0 in
      let e : Datagram = record { buf = to_wan d.buf m; size = d.size; sin = outward d.sin } in
      let u = closing p (pos 400) (record s { globals = r.globals }) in
      (
        p,
        record u { sent = e ∷ u.sent },
        found,
        rw del (
            act_del lan r.buf (to_wan d.buf m) (record s { globals = r.globals }) p closes.0
              (entry_of-lan r.buf d.size n r.globals.table p
                (IsTable-Keeps s.globals r.globals keeps good.table) (rw keeps.0 here) long
                (key.0 ∙ tcp)
                (key.1 ∙ sym w.w2l_keyed ∙ sym (ap (λ (x : Node). x.w2l_key) (keeps.2 p))))),
        closing-Closed r.globals p e keeps closes.1,
      )
