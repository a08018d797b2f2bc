-- ===== src/Table.antt =====
-- src/structure.h: the NAT table, which is the entries behind the pointers and the two trees of
-- pointers, `l2w_head` by the LAN end and `w2l_head` by the WAN end. Each operation holds the
-- lock `s_lock` from its start to its end, so it is one step.
pub mod Inv
pub mod Same
pub mod Live
pub mod Update
pub mod Delete
pub mod Value
mod Examples
use natporte.Base.{ℕ, ◌==◌, if◌then◌else◌, Option, none, some}
use natporte.Node.{Node}
use natporte.RbTree.{Tree, find, insert, clash, inserted, fault}
use natporte.RbTree.Remove.{remove}

-- A pointer is a number; `entry` is what it points to.
pub record Table : Type 0 where
  pub entry : ℕ → Node
  pub l2w : Tree ℕ
  pub w2l : Tree ℕ

-- What `cmp_l2w` and `cmp_w2l` compare.
abbrev pub l2w_key_of : Table → ℕ → ℕ
l2w_key_of t p = (t.entry p).l2w_key

abbrev pub w2l_key_of : Table → ℕ → ℕ
w2l_key_of t p = (t.entry p).w2l_key

unfoldable pub find_l2w : Table → Node → Option ℕ
find_l2w t n = find (l2w_key_of t) n.l2w_key t.l2w

unfoldable pub find_w2l : Table → Node → Option ℕ
find_w2l t n = find (w2l_key_of t) n.w2l_key t.w2l

-- A store through the pointer `p`.
unfoldable pub set_entry : Table → ℕ → Node → Table
set_entry t p n = record t { entry = λ q. if q == p then n else t.entry q }

-- `attach`, which only sets the access time, as `atime` does; `now` is `time(NULL)`.
unfoldable pub attach : Table → ℕ → ℕ → Table
unfolding set_entry
attach t p now = set_entry t p (record (t.entry p) { atime = now })

-- The second half of `s_insert`, after `p` has gone into the first tree, now `l`. If `p` does not
-- fit into the second one, it leaves the first again.
unfoldable pub s_insert_w2l : Table → ℕ → Tree ℕ → Option (Option ℕ × Table)
s_insert_w2l t p l = elim (insert (w2l_key_of t) p t.w2l) [
  | fault ↦ none
  | clash q ↦ elim (remove (l2w_key_of t) (l2w_key_of t p) l) [
    | none ↦ none
    | some l' ↦ some (some q, record t { l2w = l' })
  ]
  | inserted w ↦ some (none, record t { l2w = l; w2l = w })
]

-- The entry `p` goes into both trees. The result is the entry that is in the way, if there is one,
-- and the table; `none` is a null dereference.
unfoldable pub s_insert : Table → ℕ → Option (Option ℕ × Table)
unfolding s_insert_w2l
s_insert t p = elim (insert (l2w_key_of t) p t.l2w) [
  | fault ↦ none
  | clash q ↦ some (some q, t)
  | inserted l ↦ s_insert_w2l t p l
]

-- The entry `p`, which is in both trees, leaves them. RB_REMOVE returns the node that it is
-- given, so both results are `p`.
unfoldable pub s_delete_for_point : Table → ℕ → Option (Option ℕ × Table)
s_delete_for_point t p = elim (remove (l2w_key_of t) (l2w_key_of t p) t.l2w) [
  | none ↦ none
  | some l ↦ elim (remove (w2l_key_of t) (w2l_key_of t p) t.w2l) [
    | none ↦ none
    | some w ↦ some (some p, record t { l2w = l; w2l = w })
  ]
]

-- The entry with both keys of `n` leaves the trees, if there is one.
unfoldable pub s_delete_for_value : Table → Node → Option (Option ℕ × Table)
unfolding find_l2w find_w2l s_delete_for_point
s_delete_for_value t n = elim (find_l2w t n) [
  | none ↦ some (none, t)
  | some p ↦ elim (find_w2l t n) [
    | none ↦ some (none, t)
    | some q ↦ if p == q then s_delete_for_point t p else some (none, t)
  ]
]
