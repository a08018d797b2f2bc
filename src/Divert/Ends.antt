-- ===== src/Divert/Ends.antt =====
-- src/divert.h: the entry of a translated segment is found by the end it was rewritten to.
use natporte.Base.{
  ℕ, ◌≤◌, leb, ◌≡◌, sym, ap, ap₂, ◌∙◌, ◌<◌, ◌^◌, ◌+◌, ◌*◌, ◌%◌, false, some, Bytes, load16, ==_iff,
  arith,
}
use natporte.Node.{Node, Endpoint, mk_node, var, var_lan, var_wan}
use natporte.Packet.{ip_hl, ip_p, ip_src, ip_dst, l4, sport_at, dport_at, ipproto_tcp}
use natporte.RbTree.Shape.{to_list}
use natporte.RbTree.Members.{In}
use natporte.Table.{Table}
use natporte.Table.Inv.{IsTable, find_l2w-entry, find_w2l-entry}
use natporte.Alias.{to_lan, to_wan}
use natporte.Alias.Rewrite.{to_lan-ends, to_wan-ends}
use natporte.Divert.{lan, wan, entry_of}

-- The lookup by the new end of a segment finds the entry with that end.
pub entry_of-wan :
    (b : Bytes) (size : ℕ) (n : Node) (t : Table) (p : ℕ)
    → IsTable t
    → In p (to_list t.l2w)
    → leb size 20 ≡ false
    → ip_p b 0 ≡ ipproto_tcp
    → var (ip_p b 0) (record { port = load16 b (dport_at (l4 b 0)); ip = ip_dst b 0 })
      ≡ (t.entry p).l2w_key
    → entry_of wan b size n t ≡ some p
unfolding entry_of mk_node var_lan
entry_of-wan b size n t p table here long tcp key =
    let end : Endpoint = record { port = load16 b (dport_at (l4 b 0)); ip = ip_dst b 0 } in
    rw (long, (==_iff _ _).1 tcp)
      (find_l2w-entry t (record n { l2w_key = var (ip_p b 0) end }) p table here key)

pub entry_of-lan :
    (b : Bytes) (size : ℕ) (n : Node) (t : Table) (p : ℕ)
    → IsTable t
    → In p (to_list t.l2w)
    → leb size 20 ≡ false
    → ip_p b 0 ≡ ipproto_tcp
    → var (ip_p b 0) (record { port = load16 b (sport_at (l4 b 0)); ip = ip_src b 0 })
      ≡ (t.entry p).w2l_key
    → entry_of lan b size n t ≡ some p
unfolding entry_of mk_node var_wan
entry_of-lan b size n t p table here long tcp key =
    let end : Endpoint = record { port = load16 b (sport_at (l4 b 0)); ip = ip_src b 0 } in
    rw (long, (==_iff _ _).1 tcp)
      (find_w2l-entry t (record n { w2l_key = var (ip_p b 0) end }) p table here key)

abbrev pub at : ℕ → ℕ → Endpoint
at port ip = record { port = port; ip = ip }

-- The key of an end in the entry `m` is that of the entry.
pub key_of-wan :
    (b out : Bytes) (m : Node)
    → 5 ≤ ip_hl b 0
    → m.lan.ip < 2 ^ 32
    → m.lan.port < 2 ^ 16
    → m.protocol ≡ ip_p b 0
    → out ≡ to_lan b m
    → (ip_p out 0 ≡ ip_p b 0)
      × (var (ip_p out 0) (record { port = load16 out (dport_at (l4 out 0)); ip = ip_dst out 0 })
          ≡ var m.protocol m.lan)
key_of-wan b out m hl hi hp protocol made =
    let ends = to_lan-ends b m hl hi hp in
    let first : out 0 ≡ b 0 = ap (λ (o : Bytes). o 0) made ∙ ends.2 0 (omega arith) in
    let same : ip_p out 0 ≡ ip_p b 0 = ap (λ (o : Bytes). o 9) made ∙ ends.2 9 (omega arith) in
    (
      same,
      ap₂ var (same ∙ sym protocol) (
          ap₂ (λ (p i : ℕ). at p i)
            (ap (λ (x : ℕ). load16 out (0 + x % 16 * 4 + 2)) first
              ∙ ap (λ (o : Bytes). load16 o (dport_at (l4 b 0))) made
              ∙ ends.1)
            (ap (λ (o : Bytes). ip_dst o 0) made ∙ ends.0)),
    )

pub key_of-lan :
    (b out : Bytes) (m : Node)
    → 5 ≤ ip_hl b 0
    → m.wan.ip < 2 ^ 32
    → m.wan.port < 2 ^ 16
    → m.protocol ≡ ip_p b 0
    → out ≡ to_wan b m
    → (ip_p out 0 ≡ ip_p b 0)
      × (var (ip_p out 0) (record { port = load16 out (sport_at (l4 out 0)); ip = ip_src out 0 })
          ≡ var m.protocol m.wan)
key_of-lan b out m hl hi hp protocol made =
    let ends = to_wan-ends b m hl hi hp in
    let first : out 0 ≡ b 0 = ap (λ (o : Bytes). o 0) made ∙ ends.2 0 (omega arith) in
    let same : ip_p out 0 ≡ ip_p b 0 = ap (λ (o : Bytes). o 9) made ∙ ends.2 9 (omega arith) in
    (
      same,
      ap₂ var (same ∙ sym protocol) (
          ap₂ at
            (ap (λ (x : ℕ). load16 out (0 + x % 16 * 4)) first
              ∙ ap (λ (o : Bytes). load16 o (sport_at (l4 b 0))) made
              ∙ ends.1)
            (ap (λ (o : Bytes). ip_src o 0) made ∙ ends.0)),
    )
