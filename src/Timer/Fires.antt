-- ===== src/Timer/Fires.antt =====
-- src/main.cpp: whose timer has run down, and what becomes of it.
use natporte.Base.{
  List, [], ◌++◌, length, ltb, ltb→lt, Bool-cases, inl, inr, ap, refl, false, ℕ, ◌+◌, ◌/◌, ◌<◌, ◌≤◌,
  ◌≡◌, ◌≢◌, ◌⊎◌, sym, subst, ap₂, true, none, some, ◌∷◌, arith, ◌==◌, if◌then◌else◌,
}
use natporte.Base.Int.{pos}
use natporte.Node.{Node, Endpoint, timer_loop, var, var_lan}
use natporte.Node.Keys.{var_parts, var-eq-sum}
use natporte.Packet.{ipproto_tcp, ipproto_udp}
use natporte.RbTree.Shape.{to_list}
use natporte.RbTree.Members.{In}
use natporte.Table.{find_l2w}
use natporte.Table.Inv.{IsTable, IsEntry, find_l2w-entry}
use natporte.Ring.{Slot, Status, ring_s_push}
use natporte.Ring.Inv.{IsValid, contents, capacity}
use natporte.Ring.Queue
use natporte.Ring.Refine.{ring_s_push_refines}
use natporte.System.{System, Payload, Outcome, done, kevent, ev_delete, is_ok}
use natporte.System.Inv.{IsSystem}
use natporte.System.Events.{quotient, del_timer_event_tcp, del_timer_event_udp}
use natporte.Timer.{
  longer, expired, is_loop, timer_probe, timeout_block, timer_push, timer_entry, timer_step,
}

abbrev end_of : ℕ → ℕ → Endpoint
end_of port ip = record { port = port; ip = ip }

-- The name of an entry's timer finds the entry.
timer_probe-finds :
    (s : System) (p : ℕ)
    → IsTable s.globals.table
    → In p (to_list s.globals.table.l2w)
    → find_l2w s.globals.table (timer_probe (s.globals.table.entry p).l2w_key) ≡ some p
timer_probe-finds s p table here =
    find_l2w-entry s.globals.table (timer_probe t.l2w_key) p table here same
  where
    t : Node
    t = s.globals.table.entry p

    w : IsEntry t
    w = table.entries p here

    same : (timer_probe t.l2w_key).l2w_key ≡ t.l2w_key
    same =
        let parts = var_parts t.protocol t.lan w.lan_fits in
        rw w.l2w_keyed (unfold timer_probe var_lan in ap₂ var parts.0 (ap₂ end_of parts.1 parts.2))

-- The name of a TCP or UDP entry's timer is not that of the table dump.
key-ne-dump : (n : Node) → IsEntry n → 0 < n.protocol → n.l2w_key ≢ 1
unfolding var_lan
key-ne-dump n w h e = omega (arith, w.l2w_keyed, var-eq-sum n.protocol n.lan w.lan_fits)

-- What is left when the timer of the entry `p` has fired: the timer is taken away, and the block with
-- the entry stands last in the sender's ring, or waits for room in a full one.
pub record Fired (s : System) (node_size p : ℕ) (t : System) : Type 0 where
  pub table : t.globals ≡ s.globals
  pub kevs : t.kevs ≡ ev_delete (s.globals.table.entry p).l2w_key ∷ s.kevs
  pub block :
      ((length (contents s.h_send) < capacity s.h_send)
        × (contents t.h_send ≡ contents s.h_send ++ timeout_block node_size p ∷ [])
        × (t.timer ≡ none))
      ⊎ ((capacity s.h_send ≤ length (contents s.h_send))
          × (contents t.h_send ≡ contents s.h_send)
          × (t.timer ≡ some (timeout_block node_size p)))

-- One try to push a block, by the room in the ring.
push-block :
    (r : Slot Payload) (s : System)
    → IsValid s.h_send
    → ((length (contents s.h_send) < capacity s.h_send)
        × (contents (timer_push r s).h_send ≡ contents s.h_send ++ r ∷ [])
        × ((timer_push r s).timer ≡ none))
      ⊎ ((capacity s.h_send ≤ length (contents s.h_send))
          × (contents (timer_push r s).h_send ≡ contents s.h_send)
          × ((timer_push r s).timer ≡ some r))
unfolding timer_push Queue.push is_ok
push-block r s v =
    let e = (ring_s_push_refines s.h_send r v).0 in
    elim (Bool-cases (ltb (length (contents s.h_send)) (capacity s.h_send))) [
      | inl room ↦
          let now_in = rw room at e in
          let status : is_ok (ring_s_push s.h_send r).0 ≡ true =
            ap (λ (x : Status × List (Slot Payload)). is_ok x.0) now_in in
          inl
            (ltb→lt _ _ room, ap (λ (x : Status × List (Slot Payload)). x.1) now_in, rw status refl)
      | inr full ↦
          let kept_out = rw full at e in
          let status : is_ok (ring_s_push s.h_send r).0 ≡ false =
            ap (λ (x : Status × List (Slot Payload)). is_ok x.0) kept_out in
          inr (
            ground (arith, full),
            ap (λ (x : Status × List (Slot Payload)). x.1) kept_out,
            rw status refl,
          )
    ]

module _ (s : System) (node_size now p : ℕ) where
  abbrev t : Node
  t = s.globals.table.entry p

  abbrev fired : System
  fired = timer_push (timeout_block node_size p) (record s { kevs = ev_delete t.l2w_key ∷ s.kevs })

  -- The time of the entry is over or its flags end it, and it fires; or nothing changes.
  abbrev pub Settles : ℕ → Outcome System → Type 0
  Settles seconds r =
      ((t.atime + seconds < now ⊎ t.timer_flags ≢ timer_loop)
        × (u : System) × (r ≡ done u)
        × Fired s node_size p u)
      ⊎ ((now ≤ t.atime + seconds) × (t.timer_flags ≡ timer_loop) × (r ≡ done s))

  entry-decides :
      (a b : ℕ)
      → s.timeout_tcp ≡ pos a
      → s.timeout_udp ≡ pos b
      → (t.protocol ≡ ipproto_tcp) ⊎ (t.protocol ≡ ipproto_udp)
      → let seconds = (if t.protocol == ipproto_tcp then a else b) / 1000 in
        let r = timer_entry true node_size now t.l2w_key p s in
        ((t.atime + seconds < now ⊎ t.timer_flags ≢ timer_loop) × (r ≡ done fired))
        ⊎ ((now ≤ t.atime + seconds) × (t.timer_flags ≡ timer_loop) × (r ≡ done s))
  unfolding timer_entry expired longer quotient is_loop del_timer_event_tcp del_timer_event_udp
      kevent
  entry-decides a b tcp udp protocol = ground arith

  fired-Fired : IsValid s.h_send → Fired s node_size p fired
  fired-Fired valid = record {
    table = unfold timer_push in refl;
    kevs = unfold timer_push in refl;
    block =
        push-block (timeout_block node_size p) (record s { kevs = ev_delete t.l2w_key ∷ s.kevs })
          valid;
  }

  entry-Settles :
      (a b : ℕ)
      → s.timeout_tcp ≡ pos a
      → s.timeout_udp ≡ pos b
      → (t.protocol ≡ ipproto_tcp) ⊎ (t.protocol ≡ ipproto_udp)
      → IsValid s.h_send
      → Settles
          ((if t.protocol == ipproto_tcp then a else b) / 1000)
          (timer_entry true node_size now t.l2w_key p s)
  entry-Settles a b tcp udp protocol valid = elim (entry-decides a b tcp udp protocol) [
    | inl (over, runs) ↦ inl (over, fired, runs, fired-Fired valid)
    | inr quiet ↦ inr quiet
  ]

  -- When the timer of a TCP or UDP entry of a good table runs down, and `kevent` does not fail,
  -- its name leads to that entry. If the entry was used longer ago than its protocol's timeout
  -- in whole seconds, or is marked for its timer, then the timer is taken away, the table stays
  -- as it is, and the block with the entry and the flags of a timeout goes to the end of the
  -- sender's ring, or, when that is full, leaves it as it is and is kept for the next try; else
  -- nothing changes. The thread has no block to push, and the timeouts are not negative.
  pub timer_step-Settles :
      (a b : ℕ)
      → IsSystem s
      → In p (to_list s.globals.table.l2w)
      → s.timer ≡ none
      → s.timeout_tcp ≡ pos a
      → s.timeout_udp ≡ pos b
      → (t.protocol ≡ ipproto_tcp) ⊎ (t.protocol ≡ ipproto_udp)
      → Settles
          ((if t.protocol == ipproto_tcp then a else b) / 1000)
          (timer_step true node_size now (some t.l2w_key) s)
  timer_step-Settles a b good here free tcp udp protocol =
      subst (λ r. Settles ((if t.protocol == ipproto_tcp then a else b) / 1000) r) (sym stepped)
        (entry-Settles a b tcp udp protocol good.send)
    where
      stepped :
          timer_step true node_size now (some t.l2w_key) s
          ≡ timer_entry true node_size now t.l2w_key p s
      stepped =
          unfold timer_step in
          ground (
            arith,
            free,
            key-ne-dump t (good.table.entries p here) (ground arith),
            timer_probe-finds s p good.table here,
          )
