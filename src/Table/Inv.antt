-- ===== src/Table/Inv.antt =====
-- src/structure.h: what holds of the NAT table between two packets.
use natporte.Base.{ℕ, ◌≡◌, sym, ◌∙◌, some}
use natporte.Node.{Node, var, var_lan, var_wan}
use natporte.Node.Keys.{FitsEnd, var-injective}
use natporte.RbTree.Shape.{to_list}
use natporte.RbTree.Order.{Sorted}
use natporte.RbTree.Members.{In, find_key-In, find_key_self}
use natporte.RbTree.Find.{find-eq-find_key}
use natporte.RbTree.Balance.{IsRedBlack}
use natporte.Table.{Table, l2w_key_of, w2l_key_of, find_l2w, find_w2l}

-- An entry whose members have their declared widths, and whose keys are those of its ends.
pub record IsEntry (n : Node) : Type 0 where
  pub lan_fits : FitsEnd n.protocol n.lan
  pub wan_fits : FitsEnd n.protocol n.wan
  pub l2w_keyed : n.l2w_key ≡ var_lan n
  pub w2l_keyed : n.w2l_key ≡ var_wan n

-- Both trees are sorted red-black trees of the same entries.
pub record IsTable (t : Table) : Type 0 where
  pub l2w_balanced : IsRedBlack t.l2w
  pub w2l_balanced : IsRedBlack t.w2l
  pub l2w_sorted : Sorted (l2w_key_of t) (to_list t.l2w)
  pub w2l_sorted : Sorted (w2l_key_of t) (to_list t.w2l)
  pub entries : (p : ℕ) → In p (to_list t.l2w) → IsEntry (t.entry p)
  pub in_w2l : (p : ℕ) → In p (to_list t.l2w) → In p (to_list t.w2l)
  pub in_l2w : (p : ℕ) → In p (to_list t.w2l) → In p (to_list t.l2w)

-- An entry found by a LAN end has that end.
pub find_l2w-lan :
    (t : Table) (n : Node) (p : ℕ)
    → IsTable t
    → FitsEnd n.protocol n.lan
    → n.l2w_key ≡ var_lan n
    → find_l2w t n ≡ some p
    → In p (to_list t.l2w) × ((t.entry p).protocol ≡ n.protocol) × ((t.entry p).lan ≡ n.lan)
unfolding find_l2w
find_l2w-lan t n p w f k e =
    let hit =
      find_key-In (l2w_key_of t) n.l2w_key (to_list t.l2w) p
        (sym (find-eq-find_key (l2w_key_of t) n.l2w_key t.l2w w.l2w_sorted) ∙ e) in
    let entry = w.entries p hit.0 in
    let same : var (t.entry p).protocol (t.entry p).lan ≡ var n.protocol n.lan =
      unfold var_lan in sym entry.l2w_keyed ∙ hit.1 ∙ k in
    let parts = (var-injective _ _ _ _ entry.lan_fits f).0 same in (hit.0, parts.0, parts.1)

-- An entry of the table is found by its WAN end.
pub find_w2l-entry :
    (t : Table) (n : Node) (p : ℕ)
    → IsTable t
    → In p (to_list t.l2w)
    → n.w2l_key ≡ (t.entry p).w2l_key
    → find_w2l t n ≡ some p
unfolding find_w2l
find_w2l-entry t n p w i k = rw k (
    find-eq-find_key (w2l_key_of t) (w2l_key_of t p) t.w2l w.w2l_sorted
    ∙ find_key_self (w2l_key_of t) (to_list t.w2l) p w.w2l_sorted (w.in_w2l p i))

-- An entry found by a WAN end has that end.
pub find_w2l-wan :
    (t : Table) (n : Node) (p : ℕ)
    → IsTable t
    → FitsEnd n.protocol n.wan
    → n.w2l_key ≡ var_wan n
    → find_w2l t n ≡ some p
    → In p (to_list t.l2w) × ((t.entry p).protocol ≡ n.protocol) × ((t.entry p).wan ≡ n.wan)
unfolding find_w2l
find_w2l-wan t n p w f k e =
    let hit =
      find_key-In (w2l_key_of t) n.w2l_key (to_list t.w2l) p
        (sym (find-eq-find_key (w2l_key_of t) n.w2l_key t.w2l w.w2l_sorted) ∙ e) in
    let entry = w.entries p (w.in_l2w p hit.0) in
    let same : var (t.entry p).protocol (t.entry p).wan ≡ var n.protocol n.wan =
      unfold var_wan in sym entry.w2l_keyed ∙ hit.1 ∙ k in
    let parts = (var-injective _ _ _ _ entry.wan_fits f).0 same in
    (w.in_l2w p hit.0, parts.0, parts.1)

-- An entry of the table is found by its LAN end.
pub find_l2w-entry :
    (t : Table) (n : Node) (p : ℕ)
    → IsTable t
    → In p (to_list t.l2w)
    → n.l2w_key ≡ (t.entry p).l2w_key
    → find_l2w t n ≡ some p
unfolding find_l2w
find_l2w-entry t n p w i k = rw k (
    find-eq-find_key (l2w_key_of t) (l2w_key_of t p) t.l2w w.l2w_sorted
    ∙ find_key_self (l2w_key_of t) (to_list t.l2w) p w.l2w_sorted i)
