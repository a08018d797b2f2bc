-- ===== src/RbTree/Locate.antt =====
-- RB_REMOVE on a sorted red-black tree.
use natporte.Base.{
  ℕ, ◌≡◌, sym, subst, ap, ◌∙◌, arith, ltb, ltb→lt, List, [], ◌∷◌, ◌++◌, Option, some, none, true,
  false, Bool-cases, inl, inr,
}
use natporte.RbTree.{Tree, leaf, node, from_left, from_right, Path'}
use natporte.RbTree.Shape.{to_list, before, after}
use natporte.RbTree.Order.{
  Sorted, AllBelow, AllAbove, AllBelow-trans, AllAbove-trans, Sorted-split, find_key,
  find_key-below, find_key-left,
}
use natporte.RbTree.Balance.{IsRedBlack}
use natporte.RbTree.Inside.{Inside, Inside-root, Inside-left, Inside-right}
use natporte.RbTree.Remove.{remove_node, Place, place, locate, remove}
use natporte.RbTree.Listing.{Holds}
use mathlib.Core.List.{append_assoc, append-nil}
use mathlib.Core.Option.{some-injective}
use natporte.RbTree.Removal.{remove_node-Made, remove_node-Holds}

module _ {A : Type 0} (key : A → ℕ) where
  -- The element `a` has been found at a place that keeps the tree around it.
  abbrev Placed : A → Option (Place A) → List A → Type 0
  Placed a none xs = ⊥
  Placed a (some (place c l x r q)) xs =
      (x ≡ a)
      × Inside (node c l x r) q
      × (before q ++ (to_list l ++ x ∷ (to_list r ++ after q)) ≡ xs)

  moved : (a : A) (o : Option (Place A)) {xs ys : List A} → xs ≡ ys → Placed a o xs → Placed a o ys
  moved a o e h = subst (λ zs. Placed a o zs) e h

  locate-Placed :
      (k : ℕ) (t : Tree A) (p : Path' A) (a : A)
      → Sorted key (to_list t)
      → find_key key k (to_list t) ≡ some a
      → Inside t p
      → Placed a (locate key k t p) (before p ++ (to_list t ++ after p))
  unfolding locate
  locate-Placed k leaf p a s e h = unfold find_key in cc
  locate-Placed k (node c l x r) p a s e h =
      let parts = Sorted-split key (to_list l) (to_list r) x s in
      elim (Bool-cases (ltb k (key x))) [
        | inl lt ↦ rw lt (
            moved a (locate key k l (from_left c x r ∷ p)) (simp append_assoc) (
              locate-Placed k l (from_left c x r ∷ p) a parts.0
                (sym (
                    find_key-left key k (to_list l) (x ∷ to_list r) (
                      ltb→lt _ _ lt,
                      AllAbove-trans key k (key x) (to_list r) (ltb→lt _ _ lt) parts.2,
                    ))
                  ∙ e)
                (Inside-left c l r x p h)))
        | inr ge ↦ elim (Bool-cases (ltb (key x) k)) [
          | inl gt ↦ rw ge (
              rw gt (
                moved a (locate key k r (from_right c l x ∷ p)) (simp append_assoc) (
                  locate-Placed k r (from_right c l x ∷ p) a parts.3
                    (past k x (to_list r) gt
                      ∙ sym (
                          find_key-below key k (to_list l) (x ∷ to_list r)
                            (AllBelow-trans key (key x) k (to_list l) (ltb→lt _ _ gt) parts.1))
                      ∙ e)
                    (Inside-right c l r x p h))))
          | inr le ↦ rw ge (
              rw le (
                some-injective _ _ (sym (at_key k (to_list l) x (to_list r) parts.1 ge le) ∙ e),
                h,
                simp append_assoc,
              ))
        ]
      ]
    where
      past :
          (k : ℕ) (x : A) (r : List A)
          → ltb (key x) k ≡ true
          → find_key key k r ≡ find_key key k (x ∷ r)
      past k x r gt = unfold find_key in ground (arith, gt)

      at_key :
          (k : ℕ) (l : List A) (x : A) (r : List A)
          → AllBelow key (key x) l
          → ltb k (key x) ≡ false
          → ltb (key x) k ≡ false
          → find_key key k (l ++ x ∷ r) ≡ some x
      at_key k l x r low ge le =
          let same : key x ≡ k = ground (arith, ge, le) in
          find_key-below key k l (x ∷ r) (subst (λ j. AllBelow key j l) same low)
          ∙ (unfold find_key in ground (arith, same))

  Sorted-drop : (xs ys : List A) (a : A) → Sorted key (xs ++ a ∷ ys) → Sorted key (xs ++ ys)
  Sorted-drop [] ys a s = s.1
  Sorted-drop (x ∷ xs) ys a s = (drop_above (key x) xs s.0, Sorted-drop xs ys a s.1)
    where
      drop_above : (k : ℕ) (xs : List A) → AllAbove key k (xs ++ a ∷ ys) → AllAbove key k (xs ++ ys)
      drop_above k [] h = h.1
      drop_above k (x ∷ xs) h = (h.0, drop_above k xs h.1)

  -- A tree without the element `a` of `t`, which stands between `bs` and `ws`.
  pub record Lost (a : A) (t u : Tree A) : Type 0 where
    pub bs : List A
    pub ws : List A
    pub had : to_list t ≡ bs ++ a ∷ ws
    pub has : to_list u ≡ bs ++ ws
    pub red_black : IsRedBlack u
    pub sorted : Sorted key (to_list u)

  -- RB_REMOVE of an element of a sorted red-black tree never follows a null pointer and leaves a
  -- sorted red-black tree with the same elements without that one.
  pub remove-Lost :
      (k : ℕ) (t : Tree A) (a : A)
      → IsRedBlack t
      → Sorted key (to_list t)
      → find_key key k (to_list t) ≡ some a
      → (u : Tree A) × (remove key k t ≡ some u) × Lost a t u
  unfolding remove
  remove-Lost k t a rb s e = go (locate key k t []) (
      moved a (locate key k t []) (append-nil (to_list t))
        (locate-Placed k t [] a s e (Inside-root t rb)))
    where
      go :
          (o : Option (Place A))
          → Placed a o (to_list t)
          → (u : Tree A) × ((elim o [
            | none ↦ none
            | some (place c l x r p) ↦ remove_node c l x r p
          ])
              ≡ some u)
            × Lost a t u
      go none h = elim h [ ]
      go (some (place c l x r q)) (same, inside, whole) =
          let made = remove_node-Made c l x r q inside in
          let u : Tree A = made.0 in
          let bs : List A = before q ++ to_list l in
          let ws : List A = to_list r ++ after q in
          let had : to_list t ≡ bs ++ a ∷ ws =
            sym whole ∙ ap (λ z. before q ++ (to_list l ++ z ∷ ws)) same ∙ (simp append_assoc) in
          let has : to_list u ≡ bs ++ ws =
            subst (λ o. Holds (before q ++ (to_list l ++ ws)) o) made.1
              (remove_node-Holds c l x r q)
            ∙ (simp append_assoc) in
          (
            u,
            made.1,
            record {
              bs = bs;
              ws = ws;
              had = had;
              has = has;
              red_black = made.2;
              sorted =
                  subst (Sorted key) (sym has) (Sorted-drop bs ws a (subst (Sorted key) had s));
            },
          )
