-- ===== src/RbTree/Insert.antt =====
-- RB_INSERT on a sorted red-black tree.
use natporte.Base.{
  ℕ, ◌≡◌, refl, sym, subst, ap, ◌∙◌, arith, ltb, ltb→lt, ◌==◌, if◌then◌else◌, List, [], ◌∷◌, ◌++◌,
  some, none, false, Bool-cases, inl, inr,
}
use natporte.RbTree.{
  red, Tree, leaf, node, from_left, from_right, Path', Descent, found, below, Inserted, clash,
  inserted, fault, descend, insert, insert_color, find,
}
use natporte.RbTree.Shape.{to_list, before, after, to_list-insert_color}
use natporte.RbTree.Order.{
  Sorted, AllAbove, AllBelow, AllAbove-trans, AllBelow-trans, AllAbove-append, AllBelow-append,
  Sorted-split, find_key, insert_key, insert_key-between, insert_key-Sorted, find_key-insert_key,
  find_key-below, find_key-above,
}
use natporte.RbTree.Balance.{IsRedBlack, EvenAbove, NoRedAbove, BlackTop, insert_color-IsRedBlack}
use natporte.RbTree.Inside.{Inside, Inside-root, Inside-left, Inside-right, TopBlack}
use natporte.RbTree.Find.{find-eq-find_key}
use mathlib.Core.List.{append_assoc, append-nil}

module _ {A : Type 0} (key : A → ℕ) where
  top_of_leaf : (p : Path' A) → TopBlack leaf p → BlackTop p
  top_of_leaf [] h = tt
  top_of_leaf (k ∷ p) h = h

  -- Where the search ends, told by the elements in order.
  abbrev Ends : A → List A → Descent A → Type 0
  Ends elm xs (found x) = find_key key (key elm) xs ≡ some x
  Ends elm xs (below q) =
      (xs ≡ before q ++ after q)
      × AllBelow key (key elm) (before q)
      × AllAbove key (key elm) (after q)
      × EvenAbove 0 q
      × NoRedAbove q
      × BlackTop q

  moved : (elm : A) (d : Descent A) {xs ys : List A} → xs ≡ ys → Ends elm xs d → Ends elm ys d
  moved elm d e h = subst (λ xs. Ends elm xs d) e h

  found_here :
      (elm : A) (bs : List A) (l r : List A) (x : A) (ws : List A)
      → AllBelow key (key elm) bs
      → AllBelow key (key x) l
      → ltb (key elm) (key x) ≡ false
      → ltb (key x) (key elm) ≡ false
      → find_key key (key elm) (bs ++ ((l ++ x ∷ r) ++ ws)) ≡ some x
  found_here elm bs l r x ws b lower ge le =
      let same : key x ≡ key elm = ground (arith, ge, le) in
      find_key-below key (key elm) bs ((l ++ x ∷ r) ++ ws) b
      ∙ ap (find_key key (key elm)) (append_assoc l (x ∷ r) ws)
      ∙ find_key-below key (key elm) l (x ∷ r ++ ws) (subst (λ k. AllBelow key k l) same lower)
      ∙ unfold find_key in ground (arith, same)

  descend-Ends :
      (elm : A) (t : Tree A) (p : Path' A)
      → Sorted key (to_list t)
      → AllBelow key (key elm) (before p)
      → AllAbove key (key elm) (after p)
      → Inside t p
      → Ends elm (before p ++ (to_list t ++ after p)) (descend key elm t p)
  unfolding descend
  descend-Ends elm leaf p s b a h = (refl, b, a, h.even_above, h.no_red_above, top_of_leaf p h.top)
  descend-Ends elm (node c l x r) p s b a h =
      let parts = Sorted-split key (to_list l) (to_list r) x s in
      elim (Bool-cases (ltb (key elm) (key x))) [
        | inl lt ↦ rw lt (
            moved elm (descend key elm l (from_left c x r ∷ p)) (simp append_assoc) (
              descend-Ends elm l (from_left c x r ∷ p) parts.0 b
                (
                  ltb→lt _ _ lt,
                  AllAbove-append key (key elm) (to_list r) (after p)
                      (AllAbove-trans key (key elm) (key x) (to_list r) (ltb→lt _ _ lt) parts.2) a,
                )
                (Inside-left c l r x p h)))
        | inr ge ↦ elim (Bool-cases (ltb (key x) (key elm))) [
          | inl gt ↦ rw ge (
              rw gt (
                moved elm (descend key elm r (from_right c l x ∷ p)) (simp append_assoc) (
                  descend-Ends elm r (from_right c l x ∷ p) parts.3
                    (AllBelow-append key (key elm) (before p ++ to_list l) (x ∷ [])
                      (AllBelow-append key (key elm) (before p) (to_list l) b
                        (AllBelow-trans key (key x) (key elm) (to_list l) (ltb→lt _ _ gt) parts.1))
                      (ltb→lt _ _ gt, tt))
                    a (Inside-right c l r x p h))))
          | inr le ↦ rw ge (
              rw le (found_here elm (before p) (to_list l) (to_list r) x (after p) b parts.1 ge le))
        ]
      ]

  -- The element of the list RB_INSERT works on, by whether the key is there.
  abbrev pub Inserts : A → Tree A → Inserted A → Type 0
  Inserts elm t (clash x) = find_key key (key elm) (to_list t) ≡ some x
  Inserts elm t (inserted t') =
      (find_key key (key elm) (to_list t) ≡ none)
      × IsRedBlack t'
      × Sorted key (to_list t')
      × (to_list t' ≡ insert_key key elm (to_list t))
  Inserts elm t fault = ⊥

  put_below :
      (elm : A) (t : Tree A) (q : Path' A)
      → Sorted key (to_list t)
      → Ends elm (to_list t) (below q)
      → Inserts elm t
          (elim (insert_color (node red leaf elm leaf) q) [ none ↦ fault | some t' ↦ inserted t' ])
  put_below elm t q s (same, b, a, ev, nr, top) =
      let made =
        insert_color-IsRedBlack leaf elm leaf q (refl, refl, tt, tt) (refl, tt, tt) ev nr top in
      let listed : to_list made.0 ≡ insert_key key elm (to_list t) =
        to_list-insert_color (node red leaf elm leaf) q made.1
        ∙ sym (insert_key-between key elm (before q) (after q) b a)
        ∙ ap (insert_key key elm) (sym same) in
      let new : find_key key (key elm) (to_list t) ≡ none =
        ap (find_key key (key elm)) same
        ∙ find_key-below key (key elm) (before q) (after q) b
        ∙ find_key-above key (key elm) (after q) a in
      rw made.1 (
        new,
        made.2,
        subst (Sorted key) (sym listed) (insert_key-Sorted key elm (to_list t) s new),
        listed,
      )

  -- RB_INSERT on a sorted red-black tree never follows a null pointer: it reports the element
  -- with the same key, when there is one, and else leaves a sorted red-black tree whose elements
  -- are the old ones with the new one at its place.
  pub insert-Inserts :
      (elm : A) (t : Tree A)
      → IsRedBlack t
      → Sorted key (to_list t)
      → Inserts elm t (insert key elm t)
  unfolding insert
  insert-Inserts elm t rb s = go (descend key elm t []) (
      moved elm (descend key elm t []) (append-nil (to_list t))
        (descend-Ends elm t [] s tt tt (Inside-root t rb)))
    where
      go :
          (d : Descent A)
          → Ends elm (to_list t) d
          → Inserts elm t (elim d [
            | found x ↦ clash x
            | below p ↦ elim (insert_color (node red leaf elm leaf) p) [
              | none ↦ fault
              | some t' ↦ inserted t'
            ]
          ])
      go (found x) h = h
      go (below q) h = put_below elm t q s h

  -- After a successful RB_INSERT into a sorted red-black tree, RB_FIND gives the new element
  -- under its key, and under every other key what it gave before.
  pub find-insert :
      (k : ℕ) (elm : A) (t : Tree A) {t' : Tree A}
      → IsRedBlack t
      → Sorted key (to_list t)
      → insert key elm t ≡ inserted t'
      → find key k t' ≡ (if key elm == k then some elm else find key k t)
  find-insert k elm t {t'} rb s e =
      let done : Inserts elm t (inserted t') =
        subst (Inserts elm t) e (insert-Inserts elm t rb s) in
      find-eq-find_key key k t' done.2
      ∙ ap (find_key key k) done.3
      ∙ find_key-insert_key key k elm (to_list t) done.0
      ∙ ap (λ o. if key elm == k then some elm else o) (sym (find-eq-find_key key k t s))
