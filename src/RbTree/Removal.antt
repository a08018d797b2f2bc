-- ===== src/RbTree/Removal.antt =====
-- RB_REMOVE of a node, by the path above it.
use natporte.Base.{◌≡◌, refl, sym, subst, ap, ◌∙◌, [], ◌∷◌, ◌++◌}
use natporte.RbTree.{
  Color, black, red, Tree, leaf, node, from_left, from_right, Path', plug, color_of, blacken,
}
use natporte.RbTree.Shape.{to_list, before, after}
use natporte.RbTree.Balance.{NoRedRed, BlackTop}
use natporte.RbTree.Inside.{Inside, Inside-left, Inside-right, TopBlack}
use natporte.RbTree.Remove.{replaced, leftmost, remove_node}
use natporte.RbTree.Recolor.{Made, completes, remove_color-IsRedBlack}
use natporte.RbTree.Listing.{Holds, replaced-Holds}
use mathlib.Core.List.{append_assoc}

module _ {A : Type 0} where
  below_top : (t : Tree A) (q : Path' A) → TopBlack t q → BlackTop q
  below_top t [] h = tt
  below_top t (k ∷ q) h = h

  child_top :
      (d : Color) (t s : Tree A) (q : Path' A) (l r : Tree A) (m : A)
      → color_of s ≡ black
      → TopBlack (node d l m r) q
      → TopBlack s q
  child_top d t s [] l r m b h = b
  child_top d t s (k ∷ q) l r m b h = h

  covered : (t : Tree A) → NoRedRed t → NoRedRed (blacken t)
  covered leaf h = tt
  covered (node black l x r) h = h
  covered (node red l x r) h = (h.2, h.3)

  -- A node with a null left child gives its place to its right child.
  left_null-Made :
      (d : Color) (m : A) (child : Tree A) (q : Path' A)
      → Inside (node d leaf m child) q
      → Made (replaced d child q)
  unfolding replaced
  left_null-Made black m child q h =
      remove_color-IsRedBlack q child (covered child h.no_red_red.1) h.even.2
        (rw (← h.even.0) h.even_above, h.no_red_above, below_top (node black leaf m child) q h.top)
  left_null-Made red m child q h = (
    plug child q,
    refl,
    completes child q h.no_red_red.1 h.no_red_red.3 h.even.2 (rw (← h.even.0) h.even_above)
        h.no_red_above (child_top red child child q leaf child m h.no_red_red.1 h.top),
  )

  right_null-Made :
      (d : Color) (m : A) (child : Tree A) (q : Path' A)
      → Inside (node d child m leaf) q
      → Made (replaced d child q)
  unfolding replaced
  right_null-Made black m child q h =
      remove_color-IsRedBlack q child (covered child h.no_red_red.0) h.even.1
        (h.even_above, h.no_red_above, below_top (node black child m leaf) q h.top)
  right_null-Made red m child q h = (
    plug child q,
    refl,
    completes child q h.no_red_red.0 h.no_red_red.2 h.even.1 h.even_above h.no_red_above
        (child_top red child child q child leaf m h.no_red_red.0 h.top),
  )

  leftmost-Inside :
      (c : Color) (l : Tree A) (y : A) (r : Tree A) (p : Path' A)
      → Inside (node c l y r) p
      → let (m, d, child, q) = leftmost c l y r in Inside (node d leaf m child) (q ++ p)
  unfolding leftmost
  leftmost-Inside c leaf y r p h = h
  leftmost-Inside c (node k a z b) y r p h =
      let (m, d, child, q) = leftmost k a z b in
      subst (λ w. Inside (node d leaf m child) w) (sym (append_assoc q (from_left c y r ∷ []) p))
        (leftmost-Inside k a z b (from_left c y r ∷ p) (Inside-left c (node k a z b) r y p h))

  same_top :
      (c : Color) (l : Tree A) (x m : A) (p : Path' A)
      → BlackTop (from_right c l x ∷ p)
      → BlackTop (from_right c l m ∷ p)
  same_top c l x m [] h = h
  same_top c l x m (k ∷ p) h = h

  -- Which element stands in the parent does not matter to the rules.
  renamed :
      (t : Tree A) (c : Color) (l : Tree A) (x m : A) (p : Path' A)
      → Inside t (from_right c l x ∷ p)
      → Inside t (from_right c l m ∷ p)
  renamed t c l x m p h = record {
    no_red_red = h.no_red_red;
    even = h.even;
    joint = h.joint;
    even_above = h.even_above;
    no_red_above = h.no_red_above;
    top = same_top c l x m p h.top;
  }

  pub remove_node-Made :
      (c : Color) (l : Tree A) (x : A) (r : Tree A) (p : Path' A)
      → Inside (node c l x r) p
      → Made (remove_node c l x r p)
  unfolding remove_node
  remove_node-Made c leaf x r p h = left_null-Made c x r p h
  remove_node-Made c (node k a z b) x leaf p h = right_null-Made c x (node k a z b) p h
  remove_node-Made c (node k a z b) x (node e l y r) p h =
      let (m, d, child, q) = leftmost e l y r in
      left_null-Made d m child (q ++ from_right c (node k a z b) m ∷ p) (
        leftmost-Inside e l y r (from_right c (node k a z b) m ∷ p) (
          renamed (node e l y r) c (node k a z b) x m p
            (Inside-right c (node k a z b) (node e l y r) x p h)))

  -- The elements at and after a subtree begin with its leftmost one.
  leftmost-list :
      (c : Color) (l : Tree A) (y : A) (r : Tree A) (p : Path' A)
      → let (m, d, child, q) = leftmost c l y r in
        (before (q ++ p) ≡ before p)
        × (m ∷ (to_list child ++ after (q ++ p)) ≡ to_list (node c l y r) ++ after p)
  unfolding leftmost
  leftmost-list c leaf y r p = (refl, refl)
  leftmost-list c (node k a z b) y r p =
      let (m, d, child, q) = leftmost k a z b in
      let rest = leftmost-list k a z b (from_left c y r ∷ p) in
      rw (append_assoc q (from_left c y r ∷ []) p) (rest.0, rest.1 ∙ simp append_assoc)

  pub remove_node-Holds :
      (c : Color) (l : Tree A) (x : A) (r : Tree A) (p : Path' A)
      → Holds (before p ++ (to_list l ++ (to_list r ++ after p))) (remove_node c l x r p)
  unfolding remove_node
  remove_node-Holds c leaf x r p = replaced-Holds c r p
  remove_node-Holds c (node k a z b) x leaf p = replaced-Holds c (node k a z b) p
  remove_node-Holds c (node k a z b) x (node e l y r) p =
      let (m, d, child, q) = leftmost e l y r in
      let up_one = from_right c (node k a z b) m in
      let rest = leftmost-list e l y r (up_one ∷ p) in
      subst (λ xs. Holds xs (replaced d child (q ++ up_one ∷ p)))
        (ap (λ bs. bs ++ (to_list child ++ after (q ++ up_one ∷ p))) rest.0
          ∙ (simp append_assoc)
          ∙ ap (λ ws. before p ++ (to_list (node k a z b) ++ ws)) rest.1)
        (replaced-Holds d child (q ++ up_one ∷ p))
