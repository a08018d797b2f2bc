-- ===== src/Table/Delete.antt =====
-- src/structure.h: the deletions on a good table.
use natporte.Base.{ℕ, ◌≡◌, ◌≢◌, refl, ap, some}
use natporte.RbTree.{Tree}
use natporte.RbTree.Shape.{to_list}
use natporte.RbTree.Members.{In, find_key_self}
use natporte.RbTree.Keys.{
  remove_key, Lost-remove_key, In-remove_key, remove_key-In, remove_key-other, same_key,
}
use natporte.RbTree.Remove.{remove}
use natporte.RbTree.Locate.{remove-Lost}
use natporte.Table.{Table, l2w_key_of, w2l_key_of, s_delete_for_point}
use natporte.Table.Inv.{IsTable}

-- The entry `p` has left both trees of `t`, and nothing else has changed.
pub record Without (p : ℕ) (t u : Table) : Type 0 where
  pub good : IsTable u
  pub entry_same : u.entry ≡ t.entry
  pub l2w_left : to_list u.l2w ≡ remove_key (l2w_key_of t) (l2w_key_of t p) (to_list t.l2w)
  pub w2l_left : to_list u.w2l ≡ remove_key (w2l_key_of t) (w2l_key_of t p) (to_list t.w2l)

-- Another entry than `p` has other keys.
l2w_other :
    (t : Table) (p q : ℕ)
    → IsTable t
    → In p (to_list t.l2w)
    → In q (to_list t.l2w)
    → w2l_key_of t q ≢ w2l_key_of t p
    → l2w_key_of t q ≢ l2w_key_of t p
l2w_other t p q g here i ne e =
    ne (ap (w2l_key_of t) (same_key (l2w_key_of t) q p (to_list t.l2w) g.l2w_sorted i here e))

w2l_other :
    (t : Table) (p q : ℕ)
    → IsTable t
    → In p (to_list t.l2w)
    → In q (to_list t.l2w)
    → l2w_key_of t q ≢ l2w_key_of t p
    → w2l_key_of t q ≢ w2l_key_of t p
w2l_other t p q g here i ne e = ne (
    ap (l2w_key_of t)
      (same_key (w2l_key_of t) q p (to_list t.w2l) g.w2l_sorted (g.in_w2l q i) (g.in_w2l p here) e))

deleted :
    (t : Table) (p : ℕ) (l w : Tree ℕ)
    → remove (l2w_key_of t) (l2w_key_of t p) t.l2w ≡ some l
    → remove (w2l_key_of t) (w2l_key_of t p) t.w2l ≡ some w
    → s_delete_for_point t p ≡ some (some p, record t { l2w = l; w2l = w })
unfolding s_delete_for_point
deleted t p l w a b = rw (a, b, s_delete_for_point) refl

-- `s_delete_for_point` of an entry of a good table follows no null pointer, returns that entry,
-- and leaves a good table whose trees hold the same elements without it. No entry is changed.
pub s_delete_for_point-Without :
    (t : Table) (p : ℕ)
    → IsTable t
    → In p (to_list t.l2w)
    → (u : Table) × (s_delete_for_point t p ≡ some (some p, u)) × Without p t u
s_delete_for_point-Without t p g here =
    let kl : ℕ → ℕ = l2w_key_of t in
    let kw : ℕ → ℕ = w2l_key_of t in
    let (l, gone_l, lost_l) =
      remove-Lost kl (kl p) t.l2w p g.l2w_balanced g.l2w_sorted
        (find_key_self kl (to_list t.l2w) p g.l2w_sorted here) in
    let (w, gone_w, lost_w) =
      remove-Lost kw (kw p) t.w2l p g.w2l_balanced g.w2l_sorted
        (find_key_self kw (to_list t.w2l) p g.w2l_sorted (g.in_w2l p here)) in
    let left_l = Lost-remove_key kl p t.l2w l g.l2w_sorted lost_l in
    let left_w = Lost-remove_key kw p t.w2l w g.w2l_sorted lost_w in
    let was_l = λ (q : ℕ) (i : In q (to_list l)).
      In-remove_key kl q (kl p) (to_list t.l2w) (rw left_l at i) in
    let was_w = λ (q : ℕ) (i : In q (to_list w)).
      In-remove_key kw q (kw p) (to_list t.w2l) (rw left_w at i) in
    let u : Table = record t { l2w = l; w2l = w } in
    (
      u,
      deleted t p l w gone_l gone_w,
      record {
        good = record {
          l2w_balanced = lost_l.red_black;
          w2l_balanced = lost_w.red_black;
          l2w_sorted = lost_l.sorted;
          w2l_sorted = lost_w.sorted;
          entries = λ q i. g.entries q (was_l q i);
          in_w2l = λ q i. rw left_w (
              remove_key-In kw q (kw p) (to_list t.w2l)
                (w2l_other t p q g here (was_l q i)
                  (remove_key-other kl q (kl p) (to_list t.l2w) g.l2w_sorted (rw left_l at i)))
                (g.in_w2l q (was_l q i)));
          in_l2w = λ q i. rw left_l (
              remove_key-In kl q (kl p) (to_list t.l2w)
                (l2w_other t p q g here (g.in_l2w q (was_w q i))
                  (remove_key-other kw q (kw p) (to_list t.w2l) g.w2l_sorted (rw left_w at i)))
                (g.in_l2w q (was_w q i)));
        };
        entry_same = refl;
        l2w_left = left_l;
        w2l_left = left_w;
      },
    )
