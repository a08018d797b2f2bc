-- ===== src/RbTree/Find.antt =====
-- The searches of a sorted tree against its list of elements.
use natporte.Base.{
  ℕ, ◌≡◌, refl, sym, subst, ◌∙◌, arith, ltb, ltb→lt, if◌then◌else◌, ◌∷◌, ◌++◌, some, false,
  Bool-cases, inl, inr,
}
use natporte.RbTree.{Tree, leaf, node, find}
use natporte.RbTree.Shape.{to_list}
use natporte.RbTree.Order.{
  Sorted, AllBelow, AllAbove-trans, AllBelow-trans, Sorted-split, find_key, find_key-below,
  find_key-left,
}

module _ {A : Type 0} (key : A → ℕ) where
  -- At a node whose key is not greater, the search goes on from the node itself.
  past :
      (k : ℕ) (x : A) (r : Tree A)
      → find key k r ≡ find_key key k (to_list r)
      → ltb k (key x) ≡ false
      → (if ltb (key x) k then find key k r else some x) ≡ find_key key k (x ∷ to_list r)
  unfolding find_key
  past k x r ih ge = ground arith

  at_or_below :
      (k : ℕ) (l : Tree A) (x : A) (r : Tree A)
      → ltb k (key x) ≡ false
      → AllBelow key (key x) (to_list l)
      → find_key key k (to_list l ++ x ∷ to_list r) ≡ find_key key k (x ∷ to_list r)
  at_or_below k l x r ge b = elim (Bool-cases (ltb (key x) k)) [
    | inl lt ↦
        find_key-below key k (to_list l) (x ∷ to_list r)
          (AllBelow-trans key (key x) k (to_list l) (ltb→lt _ _ lt) b)
    | inr le ↦
        find_key-below key k (to_list l) (x ∷ to_list r)
          (subst (λ j. AllBelow key j (to_list l)) {x = key x} {y = k} (ground arith) b)
  ]

  -- RB_FIND on a sorted tree returns the element with the key asked for, found in the list of
  -- the tree's elements, or nothing when there is none.
  pub find-eq-find_key :
      (k : ℕ) (t : Tree A) → Sorted key (to_list t) → find key k t ≡ find_key key k (to_list t)
  unfolding find
  find-eq-find_key k leaf s = unfold find_key in refl
  find-eq-find_key k (node c l x r) s =
      let parts = Sorted-split key (to_list l) (to_list r) x s in
      elim (Bool-cases (ltb k (key x))) [
        | inl lt ↦ rw lt (
            find-eq-find_key k l parts.0
            ∙ sym (
                find_key-left key k (to_list l) (x ∷ to_list r) (
                  ltb→lt _ _ lt,
                  AllAbove-trans key k (key x) (to_list r) (ltb→lt _ _ lt) parts.2,
                )))
        | inr ge ↦
            rw ge
              (past k x r (find-eq-find_key k r parts.3) ge ∙ sym (at_or_below k l x r ge parts.1))
      ]
