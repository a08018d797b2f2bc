-- ===== src/Pool/Granted.antt =====
-- src/addrpool.h: a request that the pool grants, from the new entry to the packet that asked.
use natporte.Base.{
  ℕ, ◌≡◌, ◌≢◌, ◌⊎◌, inl, inr, refl, sym, leb, false, some, none, Option, Bytes, load16, arith,
}
use natporte.Codes.{do_alias, from_lan2wan}
use natporte.TcpState.{th_syn, syn_sent, tcp_state_check, has}
use natporte.Filter.{Config, chk_drop, is_too_big, chk_selfaddr}
use natporte.Node.{Node}
use natporte.Packet.{
  ip_v, ip_p, ip_src, ip_dst, l4, sport_at, th_flags_at, ipproto_tcp, ipproto_udp,
}
use natporte.RbTree.Shape.{to_list}
use natporte.RbTree.Members.{In}
use natporte.Table.{Table, l2w_key_of, w2l_key_of, set_entry, s_insert, find_l2w, find_w2l}
use natporte.Table.Inv.{IsTable, IsEntry, find_l2w-entry, find_w2l-entry}
use natporte.Table.Update.{Stored, s_insert-Stored}
use natporte.Alias.{Globals, lan_probe, to_wan, set_flags}
use natporte.Alias.Lan2wan.{
  lan2wan_alias, tcp_lan2wan, tcp_hit_lan2wan, checked_lan2wan, udp_lan2wan, udp_found_lan2wan,
}

-- A packet from the LAN that the translation looks up in the table, and that may open a flow.
pub record Opens (c : Config) (b : Bytes) (size : ℕ) : Type 0 where
  pub long : leb size 20 ≡ false
  pub version : ip_v b 0 ≡ 4
  pub allowed : chk_drop (ip_src b 0) (ip_dst b 0) from_lan2wan ≡ false
  pub small : is_too_big c b size from_lan2wan ≡ false
  pub foreign : chk_selfaddr c (ip_src b 0) (ip_dst b 0) from_lan2wan ≡ false
  pub kind :
      (ip_p b 0 ≡ ipproto_udp) ⊎ ((ip_p b 0 ≡ ipproto_tcp) × (b (th_flags_at (l4 b 0)) ≡ th_syn))

module _ (c : Config) (now : ℕ) (b : Bytes) (size : ℕ) (g : Globals) (p : ℕ) where
  hit :
      (g.table.entry p).flags ≡ syn_sent
      → b (th_flags_at (l4 b 0)) ≡ th_syn
      → let r = tcp_hit_lan2wan (g.table.entry p).flags now b g p in
        (r.verdict ≡ do_alias) × (r.buf ≡ to_wan b (g.table.entry p))
  unfolding tcp_hit_lan2wan checked_lan2wan tcp_state_check has set_flags set_entry to_wan
  hit f syn = ground arith

  -- The entry of its source translates it.
  pub Opens-translated :
      Opens c b size
      → find_l2w g.table (lan_probe (ip_p b 0) (load16 b (sport_at (l4 b 0))) (ip_src b 0)) ≡ some p
      → (ip_p b 0 ≡ ipproto_tcp → (g.table.entry p).flags ≡ syn_sent)
      → let r = lan2wan_alias c now b size g in
        (r.verdict ≡ do_alias) × (r.buf ≡ to_wan b (g.table.entry p))
  unfolding lan2wan_alias tcp_lan2wan udp_lan2wan udp_found_lan2wan
  Opens-translated o found new = split o.kind
    where
      split :
          (ip_p b 0 ≡ ipproto_udp)
            ⊎ ((ip_p b 0 ≡ ipproto_tcp) × (b (th_flags_at (l4 b 0)) ≡ th_syn))
          → let r = lan2wan_alias c now b size g in
            (r.verdict ≡ do_alias) × (r.buf ≡ to_wan b (g.table.entry p))
      split (inl udp) = ground (arith, found, o.long, o.version, o.allowed, o.small, o.foreign)
      split (inr (tcp, syn)) =
          ground (arith, found, o.long, o.version, o.allowed, o.small, o.foreign, hit (new tcp) syn)

-- No entry of the table has one of the node's keys.
abbrev pub IsFree : Table → Node → Type 0
IsFree t n = (find_l2w t n ≡ none) × (find_w2l t n ≡ none)

module _ (t : Table) (p : ℕ) (table : IsTable t) (fits : IsEntry (t.entry p)) where
  not-In_l2w :
      (q : ℕ)
      → find_l2w t (t.entry p) ≡ none
      → In q (to_list t.l2w)
      → l2w_key_of t q ≢ l2w_key_of t p
  not-In_l2w q missing i e = cc (missing, find_l2w-entry t (t.entry p) q table i (sym e))

  not-In_w2l :
      (q : ℕ)
      → find_w2l t (t.entry p) ≡ none
      → In q (to_list t.l2w)
      → w2l_key_of t q ≢ w2l_key_of t p
  not-In_w2l q missing i e = cc (missing, find_w2l-entry t (t.entry p) q table i (sym e))

  -- A node with new keys goes in.
  pub free-Stored :
      IsFree t (t.entry p)
      → (u : Table) × (s_insert t p ≡ some (none, u)) × Stored t p (some (none, u))
  free-Stored free = go (s_insert t p) refl (s_insert-Stored t p table fits)
    where
      go :
          (r : Option (Option ℕ × Table))
          → s_insert t p ≡ r
          → Stored t p r
          → (u : Table) × (s_insert t p ≡ some (none, u)) × Stored t p (some (none, u))
      go none e h = absurd h
      go (some (none, u)) e h = (u, e, h)
      go (some (some q, u)) e (w, same, l, r, i, inl key) = absurd (not-In_l2w q free.0 i key)
      go (some (some q, u)) e (w, same, l, r, i, inr key) = absurd (not-In_w2l q free.1 i key)
