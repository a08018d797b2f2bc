-- ===== src/Table/Update.antt =====
-- src/structure.h: `s_insert` and the deletions on a good table.
use natporte.Base.{ℕ, ◌≡◌, refl, ap, ◌∙◌, some, none, Option, ◌⊎◌, inl, inr, List}
use natporte.RbTree.{Tree, Inserted, clash, inserted, fault, insert}
use natporte.RbTree.Shape.{to_list}
use natporte.RbTree.Order.{find_key, insert_key}
use natporte.RbTree.Members.{In, find_key-In, find_key_self}
use natporte.RbTree.Keys.{
  remove_key, remove_key-insert_key, Lost-remove_key, In-insert_key, insert_key-In,
}
use natporte.RbTree.Insert.{Inserts, insert-Inserts}
use natporte.RbTree.Remove.{remove}
use natporte.RbTree.Locate.{Lost, remove-Lost}
use natporte.Table.{Table, l2w_key_of, w2l_key_of, s_insert, s_insert_w2l}
use natporte.Table.Inv.{IsTable, IsEntry}

module _ (t : Table) (p : ℕ) where
  abbrev pub l2w_list : Table → List ℕ
  l2w_list u = to_list u.l2w

  abbrev pub w2l_list : Table → List ℕ
  w2l_list u = to_list u.w2l

  -- The table has the same entries as `t`, or `p` besides, in both trees.
  abbrev pub Stored : Option (Option ℕ × Table) → Type 0
  Stored none = ⊥
  Stored (some (some q, u)) =
      IsTable u
      × (u.entry ≡ t.entry)
      × (to_list u.l2w ≡ to_list t.l2w)
      × (to_list u.w2l ≡ to_list t.w2l)
      × In q (to_list t.l2w)
      × ((l2w_key_of t q ≡ l2w_key_of t p) ⊎ (w2l_key_of t q ≡ w2l_key_of t p))
  Stored (some (none, u)) =
      IsTable u
      × (u.entry ≡ t.entry)
      × (to_list u.l2w ≡ insert_key (l2w_key_of t) p (to_list t.l2w))
      × (to_list u.w2l ≡ insert_key (w2l_key_of t) p (to_list t.w2l))

  grown :
      (l w : Tree ℕ)
      → IsTable t
      → IsEntry (t.entry p)
      → Inserts (l2w_key_of t) p t.l2w (inserted l)
      → Inserts (w2l_key_of t) p t.w2l (inserted w)
      → IsTable (record t { l2w = l; w2l = w })
  grown l w g e hl hw = record {
    l2w_balanced = hl.1;
    w2l_balanced = hw.1;
    l2w_sorted = hl.2;
    w2l_sorted = hw.2;
    entries = λ q i. elim (In-insert_key (l2w_key_of t) q p (to_list t.l2w) (rw hl.3 at i)) [
      | inl same ↦ rw same e
      | inr j ↦ g.entries q j
    ];
    in_w2l = λ q i. rw hw.3 (
        insert_key-In (w2l_key_of t) q p (to_list t.w2l)
          (elim (In-insert_key (l2w_key_of t) q p (to_list t.l2w) (rw hl.3 at i)) [
            | inl same ↦ inl same
            | inr j ↦ inr (g.in_w2l q j)
          ]));
    in_l2w = λ q i. rw hl.3 (
        insert_key-In (l2w_key_of t) q p (to_list t.l2w)
          (elim (In-insert_key (w2l_key_of t) q p (to_list t.w2l) (rw hw.3 at i)) [
            | inl same ↦ inl same
            | inr j ↦ inr (g.in_l2w q j)
          ]));
  }

  -- The first tree after `p` has left it again.
  shrunk :
      (l l' : Tree ℕ)
      → IsTable t
      → Inserts (l2w_key_of t) p t.l2w (inserted l)
      → Lost (l2w_key_of t) p l l'
      → to_list l' ≡ to_list t.l2w
  shrunk l l' g hl lost =
      Lost-remove_key (l2w_key_of t) p l l' hl.2 lost
      ∙ ap (remove_key (l2w_key_of t) (l2w_key_of t p)) hl.3
      ∙ remove_key-insert_key (l2w_key_of t) p (to_list t.l2w) hl.0

  second :
      (l : Tree ℕ)
      → IsTable t
      → IsEntry (t.entry p)
      → Inserts (l2w_key_of t) p t.l2w (inserted l)
      → Stored (s_insert_w2l t p l)
  unfolding s_insert_w2l
  second l g e hl =
      go (insert (w2l_key_of t) p t.w2l)
        (insert-Inserts (w2l_key_of t) p t.w2l g.w2l_balanced g.w2l_sorted)
    where
      there : find_key (l2w_key_of t) (l2w_key_of t p) (to_list l) ≡ some p
      there =
          find_key_self (l2w_key_of t) (to_list l) p hl.2
            (rw hl.3 (insert_key-In (l2w_key_of t) p p (to_list t.l2w) (inl refl)))

      go :
          (r : Inserted ℕ)
          → Inserts (w2l_key_of t) p t.w2l r
          → Stored (elim r [
            | fault ↦ none
            | clash q ↦ elim (remove (l2w_key_of t) (l2w_key_of t p) l) [
              | none ↦ none
              | some l' ↦ some (some q, record t { l2w = l' })
            ]
            | inserted w ↦ some (none, record t { l2w = l; w2l = w })
          ])
      go fault h = h
      go (clash q) h =
          let (l', gone, lost) = remove-Lost (l2w_key_of t) (l2w_key_of t p) l p hl.1 hl.2 there in
          let same = shrunk l l' g hl lost in
          let hit = find_key-In (w2l_key_of t) (w2l_key_of t p) (to_list t.w2l) q h in
          rw gone (
            record {
              l2w_balanced = lost.red_black;
              w2l_balanced = g.w2l_balanced;
              l2w_sorted = lost.sorted;
              w2l_sorted = g.w2l_sorted;
              entries = λ q i. g.entries q (rw same at i);
              in_w2l = λ q i. g.in_w2l q (rw same at i);
              in_l2w = λ q i. rw same (g.in_l2w q i);
            },
            refl,
            same,
            refl,
            g.in_l2w q hit.0,
            inr hit.1,
          )
      go (inserted w) h = (grown l w g e hl h, refl, hl.3, h.3)

  -- `s_insert` of a well-formed entry into a good table follows no null pointer. It puts the
  -- entry into both trees at its place, when neither has its key, and leaves a good table; else
  -- it reports an entry of the table with the same LAN or WAN key and leaves a good table with
  -- the same elements in both trees as before. No entry is changed.
  pub s_insert-Stored : IsTable t → IsEntry (t.entry p) → Stored (s_insert t p)
  unfolding s_insert
  s_insert-Stored g e =
      go (insert (l2w_key_of t) p t.l2w)
        (insert-Inserts (l2w_key_of t) p t.l2w g.l2w_balanced g.l2w_sorted)
    where
      go :
          (r : Inserted ℕ)
          → Inserts (l2w_key_of t) p t.l2w r
          → Stored (elim r [
            | fault ↦ none
            | clash q ↦ some (some q, t)
            | inserted l ↦ s_insert_w2l t p l
          ])
      go fault h = h
      go (clash q) h =
          let hit = find_key-In (l2w_key_of t) (l2w_key_of t p) (to_list t.l2w) q h in
          (g, refl, refl, refl, hit.0, inl hit.1)
      go (inserted l) h = second l g e h
