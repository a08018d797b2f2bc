-- ===== src/Pool/Opened.antt =====
-- src/addrpool.h: "request_ack" opens a flow: the entry stands in the table, the packet goes out
-- from the granted end, and the way back is open.
use natporte.Base.{
  ℕ, ◌≤◌, ◌≡◌, ◌≢◌, ◌⊎◌, inl, inr, refl, sym, ap, ap₂, ◌∙◌, true, some, none, ◌∷◌, Bytes, IsBytes,
  bit_and, load16, store16_outside, load16-same, load32-same, htons, htonl, ==_iff, arith,
}
use natporte.Base.Int.{ℤ}
use natporte.TcpState.{syn_sent, th_syn}
use natporte.Filter.{Config}
use natporte.Node.{Node, Endpoint, var, var_lan, var_wan}
use natporte.Packet.{ip_hl, ip_p, ip_src, l4, sport_at, th_flags_at, ipproto_tcp, ipproto_udp}
use natporte.RbTree.Shape.{to_list}
use natporte.RbTree.Members.{In}
use natporte.RbTree.Keys.{insert_key-In}
use natporte.Table.{Table, l2w_key_of, set_entry, find_w2l, s_insert}
use natporte.Table.Inv.{IsEntry, find_l2w-entry, find_w2l-entry}
use natporte.Table.Same.{find_l2w-Same, find_w2l-Same}
use natporte.Alias.{lan_probe, wan_probe}
use natporte.Alias.Lan2wan.{lan2wan_alias}
use natporte.Alias.Rewrite.{to_wan-ends}
use natporte.Alias.Entries.{lan2wan_alias-Keeps, IsTable-Keeps}
use natporte.System.{System, packet, done, Kernel, Ends, Datagram, other_error, ev_add, kevent}
use natporte.System.Inv.{IsSystem, send_packet_done}
use natporte.System.Events.{quotient, add_timer_event_tcp, add_timer_event_udp}
use natporte.Pool.{pool_sin}
use natporte.Pool.Receiver.{
  granted, with_table, clear_df_and, send_granted, start_entry, hairpin, on_request_ack,
}
use natporte.Pool.Answers.{FitsEnds, IsFresh, granted-IsEntry, set_entry-Same, set_entry-IsTable}
use natporte.Pool.Granted.{Opens, Opens-translated, IsFree, free-Stored}

-- The flow of the packet `b` is open behind the entry `p`, and `d` is the packet as it was sent.
pub record Opened (s t : System) (p : ℕ) (e : Ends) (b : Bytes) (d : Datagram) : Type 0 where
  pub good : IsSystem t
  pub entered : In p (to_list t.globals.table.l2w)
  pub back :
      find_w2l t.globals.table (wan_probe e.protocol (htons e.wan_port) (htonl e.wan_ip)) ≡ some p
  pub sent : t.sent ≡ d ∷ s.sent
  pub source : ip_src d.buf 0 ≡ htonl e.wan_ip
  pub port : load16 d.buf (sport_at (l4 b 0)) ≡ htons e.wan_port

abbrev at : ℕ → ℕ → Endpoint
at port ip = record { port = port; ip = ip }

-- The DF bit lies before the addresses.
clear_df_and_outside : (c : Config) (b : Bytes) (size j : ℕ) → 8 ≤ j → clear_df_and c b size j ≡ b j
unfolding clear_df_and
clear_df_and_outside c b size j h =
    ground (
      arith,
      store16_outside b 6 (bit_and (load16 b 6) (htons 0xbfff)) j (omega arith) (omega arith),
    )

module _ (k : Kernel) (c : Config) (now : ℕ) (e : Ends) (b : Bytes) (size : ℕ)
    (network : k.sendto ≢ other_error) (timers : k.kevent ≡ true) (opens : Opens c b size)
    (protocol : e.protocol ≡ ip_p b 0) where
  -- The timer of the entry is set, and the packet goes on to the translation.
  started :
      (n : Node) (s : System)
      → (ms : ℤ) × (start_entry k c now e n b size s
          ≡ send_granted k c now b size (record s { kevs = ev_add n.l2w_key ms ∷ s.kevs }))
  unfolding start_entry hairpin add_timer_event_tcp add_timer_event_udp kevent
  started n s = split opens.kind
    where
      split :
          (ip_p b 0 ≡ ipproto_udp)
            ⊎ ((ip_p b 0 ≡ ipproto_tcp) × (b (th_flags_at (l4 b 0)) ≡ th_syn))
          → (ms : ℤ) × (start_entry k c now e n b size s
              ≡ send_granted k c now b size (record s { kevs = ev_add n.l2w_key ms ∷ s.kevs }))
      split (inl udp) =
          (quotient s.timeout_udp 2, ground (arith, timers, udp, protocol, opens.foreign))
      split (inr (tcp, syn)) = (quotient s.timeout_tcp 2, ground (arith, timers, tcp, protocol))

  module _ (p : ℕ) (s : System) (good : IsSystem s) (bytes : IsBytes b) (header : 5 ≤ ip_hl b 0)
      (fits : FitsEnds e) (lan_ip : htonl e.lan_ip ≡ ip_src b 0)
      (lan_port : htons e.lan_port ≡ load16 b (sport_at (l4 b 0)))
      (fresh : IsFresh s.globals.table p) where
    abbrev made : Table
    made = set_entry s.globals.table p (granted now e)

    made_entry : made.entry p ≡ granted now e
    made_entry = unfold set_entry in ground arith

    as_syn_sent : e.protocol ≡ ipproto_tcp → (granted now e).flags ≡ syn_sent
    as_syn_sent tcp = unfold granted in rw ((==_iff _ _).1 tcp)

    -- The state `u` has the new entry, its trees are good, and the packet has not gone yet.
    sends :
        (u : System)
        → IsSystem u
        → u.sent ≡ s.sent
        → u.globals.table.entry p ≡ granted now e
        → In p (to_list u.globals.table.l2w)
        → (t : System) × (d : Datagram) × (send_granted k c now b size u ≡ done t)
          × Opened s t p e b d
    unfolding send_granted lan_probe wan_probe granted var_lan var_wan
    sends u v unsent new here =
        let t = u.globals.table in
        let r = lan2wan_alias c now b size u.globals in
        let keeps = lan2wan_alias-Keeps c now b size u.globals in
        let probe = lan_probe (ip_p b 0) (load16 b (sport_at (l4 b 0))) (ip_src b 0) in
        let key : probe.l2w_key ≡ (t.entry p).l2w_key =
          ap₂ var (sym protocol) (ap₂ at (sym lan_port) (sym lan_ip))
          ∙ ap (λ (n : Node). n.l2w_key) (sym new) in
        let w = v.table.entries p here in
        let found = find_l2w-entry t probe p v.table here key in
        let out =
          Opens-translated c now b size u.globals p opens found
            (λ tcp. ap (λ (n : Node). n.flags) new ∙ as_syn_sent (protocol ∙ tcp)) in
        let ends = to_wan-ends b (t.entry p) header w.wan_fits.ip_u32 w.wan_fits.port_u16 in
        let d : Datagram = record {
          buf = clear_df_and c r.buf size;
          size = size;
          sin = pool_sin;
        } in
        (
          record u { globals = r.globals; sent = d ∷ u.sent },
          d,
          rw out.0 (send_packet_done k.sendto d (record u { globals = r.globals }) network),
          record {
            good = record {
              table = IsTable-Keeps u.globals r.globals keeps v.table;
              send = v.send;
              recv = v.recv;
              sound = v.sound;
            };
            entered = rw keeps.0 here;
            back =
                find_w2l-entry r.globals.table
                  (wan_probe e.protocol (htons e.wan_port) (htonl e.wan_ip)) p
                  (IsTable-Keeps u.globals r.globals keeps v.table) (rw keeps.0 here)
                  (ap (λ (n : Node). n.w2l_key) (sym new)
                    ∙ sym (ap (λ (n : Node). n.w2l_key) (keeps.2 p)));
            sent = ap (d ∷◌) unsent;
            source =
                load32-same r.buf d.buf 12
                  (λ j lo hi. clear_df_and_outside c r.buf size j (omega arith))
                ∙ ap (λ (o : Bytes). ip_src o 0) out.1
                ∙ ends.0
                ∙ ap (λ (n : Node). n.wan.ip) new;
            port =
                load16-same r.buf d.buf (sport_at (l4 b 0))
                  (λ j lo hi. clear_df_and_outside c r.buf size j (omega arith))
                ∙ ap (λ (o : Bytes). load16 o (sport_at (l4 b 0))) out.1
                ∙ ends.1
                ∙ ap (λ (n : Node). n.wan.port) new;
          },
        )

    inserted :
        (flags : ℕ) (u : Table)
        → s_insert made p ≡ some (none, u)
        → on_request_ack k c now p e (packet b) size flags s
          ≡ start_entry k c now e (granted now e) b size (with_table s u)
    unfolding on_request_ack
    inserted flags u h = rw (h, on_request_ack)

    -- The packet that asked for the entry opens the flow.
    pub request_ack-Opened :
        (flags : ℕ)
        → IsFree s.globals.table (granted now e)
        → (t : System) × (d : Datagram) × (on_request_ack k c now p e (packet b) size flags s
            ≡ done t)
          × Opened s t p e b d
    request_ack-Opened flags free =
        let n = granted now e in
        let same = set_entry-Same s.globals.table p n fresh in
        let table = set_entry-IsTable s.globals.table p n fresh good.table in
        let entry : IsEntry (made.entry p) = rw made_entry (granted-IsEntry now e fits) in
        let unused : IsFree made (made.entry p) = rw made_entry (
          find_l2w-Same s.globals.table made n same good.table ∙ free.0,
          find_w2l-Same s.globals.table made n same good.table ∙ free.1,
        ) in
        let (u, stored, w) = free-Stored made p table entry unused in
        let (ms, runs) = started n (with_table s u) in
        let (t, d, sent, opened) =
          sends (record (with_table s u) { kevs = ev_add n.l2w_key ms ∷ s.kevs })
            (record { table = w.0; send = good.send; recv = good.recv; sound = good.sound }) refl
            (ap (λ (f : ℕ → Node). f p) w.1 ∙ made_entry)
            (rw w.2 (insert_key-In (l2w_key_of made) p p (to_list made.l2w) (inl refl))) in
        (t, d, inserted flags u stored ∙ runs ∙ sent, opened)
