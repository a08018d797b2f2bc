-- ===== src/Table/Value.antt =====
-- src/structure.h: `s_delete_for_value` on a good table.
use natporte.Base.{
  ℕ, arith, ◌≡◌, ◌≢◌, refl, sym, ap, ◌∙◌, some, none, Option, ◌⊎◌, inl, inr, ◌==◌, ==_iff,
  if◌then◌else◌, Bool-cases, false,
}
use natporte.Node.{Node}
use natporte.RbTree.Shape.{to_list}
use natporte.RbTree.Find.{find-eq-find_key}
use natporte.RbTree.Members.{In, find_key-In}
use natporte.Table.{Table, l2w_key_of, find_l2w, find_w2l, s_delete_for_point, s_delete_for_value}
use natporte.Table.Inv.{IsTable}
use natporte.Table.Delete.{Without, s_delete_for_point-Without}
use mathlib.Core.Option.{some-injective}

-- Either one entry has both keys and has left the table, or there is none and nothing changes.
abbrev pub Deleted : Table → Node → Option (Option ℕ × Table) → Type 0
Deleted t n none = ⊥
Deleted t n (some (some p, u)) = (find_l2w t n ≡ some p) × (find_w2l t n ≡ some p) × Without p t u
Deleted t n (some (none, u)) =
    (u ≡ t) × ((find_l2w t n ≡ none) ⊎ (find_w2l t n ≡ none) ⊎ (find_l2w t n ≢ find_w2l t n))

-- On a good table `s_delete_for_value` follows no null pointer: it deletes and returns the entry
-- that both keys of its argument find, and returns null with the table unchanged when a key
-- finds none or they find different entries.
pub s_delete_for_value-Deleted :
    (t : Table) (n : Node) → IsTable t → Deleted t n (s_delete_for_value t n)
unfolding s_delete_for_value
s_delete_for_value-Deleted t n g = go (find_l2w t n) (find_w2l t n) refl refl
  where
    here : (p : ℕ) → find_l2w t n ≡ some p → In p (to_list t.l2w)
    here p e =
        (find_key-In (l2w_key_of t) n.l2w_key (to_list t.l2w) p (
          sym (find-eq-find_key (l2w_key_of t) n.l2w_key t.l2w g.l2w_sorted)
          ∙ (unfold find_l2w in e))).0

    differ :
        (p q : ℕ)
        → (p == q) ≡ false
        → find_l2w t n ≡ some p
        → find_w2l t n ≡ some q
        → find_l2w t n ≢ find_w2l t n
    differ p q other ea eb e =
        let same : p ≡ q = some-injective _ _ (sym ea ∙ e ∙ eb) in ground (arith, same, other)

    go :
        (a b : Option ℕ)
        → find_l2w t n ≡ a
        → find_w2l t n ≡ b
        → Deleted t n (elim a [
          | none ↦ some (none, t)
          | some p ↦ elim b [
            | none ↦ some (none, t)
            | some q ↦ if p == q then s_delete_for_point t p else some (none, t)
          ]
        ])
    go none b ea eb = (refl, inl ea)
    go (some p) none ea eb = (refl, inr (inl eb))
    go (some p) (some q) ea eb = elim (Bool-cases (p == q)) [
      | inl same ↦
          let (u, gone, without) = s_delete_for_point-Without t p g (here p ea) in
          rw (same, gone) (ea, eb ∙ ap some (sym ((==_iff p q).0 same)), without)
      | inr other ↦ rw other (refl, inr (inr (differ p q other ea eb)))
    ]
