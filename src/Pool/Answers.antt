-- ===== src/Pool/Answers.antt =====
-- src/addrpool.h: no answer of the pool spoils the shared state.
use natporte.Base.{
  ℕ, ◌^◌, ◌<◌, ◌≡◌, refl, Bool, true, false, Option, some, none, inl, inr, Bool-cases, arith, ◌==◌,
  ◌||◌, if◌then◌else◌, Bytes, htons-lt, htonl-lt, ◌≢◌,
}
use natporte.Filter.{Config}
use natporte.Node.{Node}
use natporte.Packet.{ipproto_tcp, ipproto_udp}
use natporte.RbTree.Shape.{to_list}
use natporte.RbTree.Members.{In}
use natporte.Table.{Table, set_entry, s_insert, s_delete_for_value}
use natporte.Table.Inv.{IsTable, IsEntry}
use natporte.Table.Same.{Same, IsTable-Same}
use natporte.Table.Update.{Stored, s_insert-Stored}
use natporte.Table.Delete.{s_delete_for_point-Without}
use natporte.Table.Value.{Deleted, s_delete_for_value-Deleted}
use natporte.Table.Live.{is_live, is_live-In}
use natporte.Alias.Wan2lan.{wan2lan_alias}
use natporte.Alias.Lan2wan.{lan2wan_alias}
use natporte.Alias.Entries.{alias-IsTable}
use natporte.System.{
  System, Payload, packet, entry, done, exits, fault, Ends, Kernel, Datagram, send_packet,
  ev_delete,
}
use natporte.System.Inv.{IsSystem}
use natporte.System.Events.{
  add_timer_event_tcp, add_timer_event_udp, del_timer_event_tcp, del_timer_event_udp,
}
use natporte.System.Preserves.{
  Preserves, Guards, Preserves-Guards, >>=-Preserves, with-IsSystem, send_packet-Preserves,
  kevent-Preserves,
}
use natporte.Pool.{pool_sin}
use natporte.Pool.Receiver.{
  with_table, granted, send_granted, hairpin, start_entry, on_request_ack, on_request_discard,
  free_block, translate_last, delete_released, finish_release, released_node, on_release_ack,
}

-- The members of a message have the widths that they are read with.
pub record FitsEnds (e : Ends) : Type 0 where
  pub protocol_u8 : e.protocol < 2 ^ 8
  pub lan_ip_u32 : e.lan_ip < 2 ^ 32
  pub wan_ip_u32 : e.wan_ip < 2 ^ 32
  pub lan_port_u16 : e.lan_port < 2 ^ 16
  pub wan_port_u16 : e.wan_port < 2 ^ 16

pub granted-IsEntry : (now : ℕ) (e : Ends) → FitsEnds e → IsEntry (granted now e)
unfolding granted
granted-IsEntry now e f = record {
  lan_fits = record {
    protocol_u8 = f.protocol_u8;
    port_u16 = htons-lt e.lan_port;
    ip_u32 = htonl-lt e.lan_ip;
  };
  wan_fits = record {
    protocol_u8 = f.protocol_u8;
    port_u16 = htons-lt e.wan_port;
    ip_u32 = htonl-lt e.wan_ip;
  };
  l2w_keyed = refl;
  w2l_keyed = refl;
}

-- `malloc` gives memory that no entry of the table has.
abbrev pub IsFresh : Table → ℕ → Type 0
IsFresh t p = ¬ In p (to_list t.l2w)

-- A node behind a fresh pointer leaves the table as it is.
pub set_entry-Same : (t : Table) (p : ℕ) (n : Node) → IsFresh t p → Same t (set_entry t p n)
unfolding set_entry
set_entry-Same t p n fresh = (refl, refl, λ q i. ground (arith, other q i))
  where
    other : (q : ℕ) → In q (to_list t.l2w) → q ≢ p
    other q i e = fresh (rw (← e) i)

pub set_entry-IsTable :
    (t : Table) (p : ℕ) (n : Node) → IsFresh t p → IsTable t → IsTable (set_entry t p n)
set_entry-IsTable t p n fresh w = IsTable-Same t (set_entry t p n) (set_entry-Same t p n fresh) w

module _ (k : Kernel) (c : Config) (now : ℕ) where
  send-Preserves :
      (b : Bytes) (size : ℕ) (s : System) → IsSystem s → Preserves (send_granted k c now b size s)
  unfolding send_granted
  send-Preserves b size s v =
      let r = lan2wan_alias c now b size s.globals in
      let w = with-IsSystem s r.globals (alias-IsTable c now b size s.globals v.table).1 v in
      ground (
        arith,
        w,
        λ (d : Datagram). send_packet-Preserves k.sendto d (record s { globals = r.globals }) w,
      )

  hairpin-Preserves :
      (b : Bytes) (size : ℕ) (s : System) → IsSystem s → Preserves (hairpin k c now b size s)
  unfolding hairpin
  hairpin-Preserves b size s v =
      let r = wan2lan_alias c now b size s.globals in
      let w = with-IsSystem s r.globals (alias-IsTable c now b size s.globals v.table).0 v in
      ground (
        arith,
        w,
        send-Preserves b size s v,
        send-Preserves r.buf size (record s { globals = r.globals }) w,
      )

  start-Preserves :
      (e : Ends) (n : Node) (b : Bytes) (size : ℕ) (s : System)
      → IsSystem s
      → Preserves (start_entry k c now e n b size s)
  unfolding start_entry add_timer_event_tcp add_timer_event_udp
  start-Preserves e n b size s v = ground (
    arith,
    >>=-Preserves (add_timer_event_tcp k.kevent n.l2w_key s) (send_granted k c now b size)
        (kevent-Preserves k.kevent _ s v) (send-Preserves b size),
    >>=-Preserves (add_timer_event_udp k.kevent n.l2w_key s) (hairpin k c now b size)
        (kevent-Preserves k.kevent _ s v) (hairpin-Preserves b size),
    send-Preserves b size s v,
  )

  pub request_ack-Preserves :
      (p : ℕ) (e : Ends)
      → FitsEnds e
      → (b : Payload) (size flags : ℕ) (s : System) → IsFresh s.globals.table p
      → IsSystem s
      → Preserves (on_request_ack k c now p e b size flags s)
  unfolding on_request_ack
  request_ack-Preserves p e f (entry q) size flags s fresh v = tt
  request_ack-Preserves p e f (packet b) size flags s fresh v = go (s_insert t p) (
      s_insert-Stored t p (set_entry-IsTable s.globals.table p (granted now e) fresh v.table)
        (rw at_p (granted-IsEntry now e f)))
    where
      t : Table
      t = set_entry s.globals.table p (granted now e)

      at_p : t.entry p ≡ granted now e
      at_p = unfold set_entry in ground arith

      go :
          (r : Option (Option ℕ × Table))
          → Stored t p r
          → Preserves (elim r [
            | none ↦ fault
            | some (some q, u) ↦ done (with_table s u)
            | some (none, u) ↦ start_entry k c now e (granted now e) b size (with_table s u)
          ])
      go none h = tt
      go (some (some q, u)) h = with-IsSystem s (record s.globals { table = u }) h.0 v
      go (some (none, u)) h =
          start-Preserves e (granted now e) b size (with_table s u)
            (with-IsSystem s (record s.globals { table = u }) h.0 v)

  pub free-Guards : (b : Payload) (s : System) → IsSystem s → Guards (free_block b s)
  unfolding free_block
  free-Guards (packet b) s v = λ sound. v
  free-Guards (entry p) s v = elim (Bool-cases (is_live s.globals.table s.dangling p)) [
    | inl live ↦ rw (live, Guards, free_block) (λ sound. cc)
    | inr freed ↦ rw (freed, Guards, free_block) tt
  ]

  pub discard-Guards :
      (opt_reset : Bool) (b : Payload) (size flags : ℕ) (s : System)
      → IsSystem s
      → Guards (on_request_discard k opt_reset b size flags s)
  unfolding on_request_discard
  discard-Guards true (entry p) size flags s v = tt
  discard-Guards false (entry p) size flags s v = free-Guards (entry p) s v
  discard-Guards opt_reset (packet b) size flags s v =
      Preserves-Guards _ (ground (arith, v, λ (d : Datagram). send_packet-Preserves k.sendto d s v))

  delete-Preserves : (n : Node) (s : System) → IsSystem s → Preserves (delete_released k.kevent n s)
  unfolding delete_released del_timer_event_tcp del_timer_event_udp
  delete-Preserves n s v =
      elim (Bool-cases (n.protocol == ipproto_tcp || n.protocol == ipproto_udp)) [
        | inl known ↦
            rw (known, Preserves, delete_released)
              (go (s_delete_for_value s.globals.table n)
                (s_delete_for_value-Deleted s.globals.table n v.table))
        | inr unknown ↦ rw (unknown, Preserves, delete_released) v
      ]
    where
      go :
          (r : Option (Option ℕ × Table))
          → Deleted s.globals.table n r
          → Preserves (elim r [
            | none ↦ fault
            | some (none, u) ↦ exits
            | some (some p, u) ↦
                let ident = (u.entry p).l2w_key in
                if n.protocol == ipproto_tcp
                then del_timer_event_tcp k.kevent ident (with_table s u)
                else del_timer_event_udp k.kevent ident (with_table s u)
          ])
      go none h = tt
      go (some (none, u)) h = tt
      go (some (some p, u)) h =
          let w = with-IsSystem s (record s.globals { table = u }) h.2.good v in
          ground
            (arith, kevent-Preserves k.kevent (ev_delete (u.entry p).l2w_key) (with_table s u) w)

  finish-Preserves :
      (n : Node) (b : Bytes) (size : ℕ) (s : System)
      → IsSystem s
      → Preserves (finish_release k n b size s)
  unfolding finish_release
  finish-Preserves n b size s v =
      >>=-Preserves (delete_released k.kevent n s)
        (send_packet k.sendto (record { buf = b; size = size; sin = pool_sin }))
        (delete-Preserves n s v)
        (send_packet-Preserves k.sendto (record { buf = b; size = size; sin = pool_sin }))

  pub release_ack-Preserves :
      (e : Ends) (b : Payload) (size flags : ℕ) (s : System)
      → IsSystem s
      → Preserves (on_release_ack k c now e b size flags s)
  unfolding on_release_ack translate_last
  release_ack-Preserves e (entry p) size flags s v =
      elim (Bool-cases (is_live s.globals.table s.dangling p)) [
        | inl live ↦
            let (u, gone, left) =
              s_delete_for_point-Without s.globals.table p v.table
                (is_live-In s.globals.table s.dangling p live) in
            ground (arith, live, gone, with-IsSystem s (record s.globals { table = u }) left.good v)
        | inr freed ↦ ground (arith, freed)
      ]
  release_ack-Preserves e (packet b) size flags s v =
      let out = lan2wan_alias c now b size s.globals in
      let back = wan2lan_alias c now b size s.globals in
      let wo = with-IsSystem s out.globals (alias-IsTable c now b size s.globals v.table).1 v in
      let wb = with-IsSystem s back.globals (alias-IsTable c now b size s.globals v.table).0 v in
      let n = released_node now e in
      ground (
        arith,
        wo,
        wb,
        finish-Preserves n b size s v,
        finish-Preserves n out.buf size (record s { globals = out.globals }) wo,
        finish-Preserves n back.buf size (record s { globals = back.globals }) wb,
      )
