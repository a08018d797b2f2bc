-- ===== src/RbTree/Remove.antt =====
-- RB_REMOVE and RB_REMOVE_COLOR of src/structure.h.
use natporte.Base.{ℕ, ltb, if◌then◌else◌, not, ◌&&◌, Option, none, some, [], ◌∷◌, ◌++◌}
use natporte.RbTree.{
  Color, black, red, Tree, leaf, node, from_left, from_right, Path', plug, blacken, is_red,
}

-- What one round of the loop does below a parent: the tree is rebuilt and the loop ends, the loop
-- goes on with the parent, or a null sibling is followed.
pub data Round (A : Type 0) : Type 0 where
  rebuilt deeper : Tree A → Round A
  null_sibling : Round A

module _ {A : Type 0} where
  -- The round for a left child `elm` of a parent of colour `c`, with the black sibling `tmp`.
  unfoldable pub round_left : Color → Tree A → A → Tree A → Round A
  round_left c elm x leaf = null_sibling
  round_left c elm x (node k a y b) =
      if not (is_red a) && not (is_red b)
      then deeper (node c elm x (node red a y b))
      else if not (is_red b)
      then elim a [
        | leaf ↦ null_sibling
        | node d a1 z a2 ↦ rebuilt (node c (node black elm x a1) z (node black a2 y b))
      ]
      else rebuilt (node c (node black elm x a) y (blacken b))

  -- The same for a right child.
  unfoldable pub round_right : Color → Tree A → A → Tree A → Round A
  round_right c leaf x elm = null_sibling
  round_right c (node k a y b) x elm =
      if not (is_red b) && not (is_red a)
      then deeper (node c (node red a y b) x elm)
      else if not (is_red a)
      then elim b [
        | leaf ↦ null_sibling
        | node d b1 z b2 ↦ rebuilt (node c (node black a y b1) z (node black b2 x elm))
      ]
      else rebuilt (node c (blacken a) y (node black b x elm))

  -- The end of the loop at a red node or the root: it becomes black.
  abbrev pub stop : Tree A → Path' A → Option (Tree A)
  stop t p = some (plug (blacken t) p)

  -- The end by `break`: the root becomes black.
  abbrev pub finish : Tree A → Path' A → Option (Tree A)
  finish t p = some (blacken (plug t p))

  -- After the rotation that a red sibling asks for, the parent is red, so the loop ends there.
  abbrev pub last_round : Round A → Path' A → Option (Tree A)
  last_round (rebuilt t) p = finish t p
  last_round (deeper t) p = stop t p
  last_round null_sibling p = none

  -- RB_REMOVE_COLOR at the subtree `elm`.
  unfoldable pub remove_color : Tree A → Path' A → Option (Tree A)
  unfolding round_left round_right plug
  remove_color elm [] = stop elm []
  remove_color elm (from_left c x leaf ∷ p) =
      if is_red elm then stop elm (from_left c x leaf ∷ p) else none
  remove_color elm (from_left c x (node red a y b) ∷ p) =
      if is_red elm
      then stop elm (from_left c x (node red a y b) ∷ p)
      else last_round (round_left red elm x a) (from_left black y b ∷ p)
  remove_color elm (from_left c x (node black a y b) ∷ p) =
      if is_red elm
      then stop elm (from_left c x (node black a y b) ∷ p)
      else elim (round_left c elm x (node black a y b)) [
        | rebuilt t ↦ finish t p
        | deeper t ↦ remove_color t p
        | null_sibling ↦ none
      ]
  remove_color elm (from_right c leaf x ∷ p) =
      if is_red elm then stop elm (from_right c leaf x ∷ p) else none
  remove_color elm (from_right c (node red a y b) x ∷ p) =
      if is_red elm
      then stop elm (from_right c (node red a y b) x ∷ p)
      else last_round (round_right red b x elm) (from_right black a y ∷ p)
  remove_color elm (from_right c (node black a y b) x ∷ p) =
      if is_red elm
      then stop elm (from_right c (node black a y b) x ∷ p)
      else elim (round_right c (node black a y b) x elm) [
        | rebuilt t ↦ finish t p
        | deeper t ↦ remove_color t p
        | null_sibling ↦ none
      ]

  -- A node of colour `c` has given its place to its only child.
  unfoldable pub replaced : Color → Tree A → Path' A → Option (Tree A)
  unfolding plug remove_color
  replaced black child p = remove_color child p
  replaced red child p = some (plug child p)

  -- The leftmost node of a subtree: its element, its colour, its right child and the path to it.
  unfoldable pub leftmost : Color → Tree A → A → Tree A → A × Color × Tree A × Path' A
  leftmost c leaf y r = (y, c, r, [])
  leftmost c (node k a z b) y r =
      let (m, d, child, p) = leftmost k a z b in (m, d, child, p ++ from_left c y r ∷ [])

  -- RB_REMOVE of the node at the end of the path `p`. With two children, its successor takes its
  -- place and its colour.
  unfoldable pub remove_node : Color → Tree A → A → Tree A → Path' A → Option (Tree A)
  unfolding replaced leftmost
  remove_node c leaf x r p = replaced c r p
  remove_node c (node k a z b) x leaf p = replaced c (node k a z b) p
  remove_node c (node k a z b) x (node e l y r) p =
      let (m, d, child, q) = leftmost e l y r in
      replaced d child (q ++ from_right c (node k a z b) m ∷ p)

-- The place of a node in its tree: the node and the path above it.
pub data Place (A : Type 0) : Type 0 where
  place : Color → Tree A → A → Tree A → Path' A → Place A

module _ {A : Type 0} (key : A → ℕ) where
  -- Where the element with the key of `elm` is. The caller has a pointer to it.
  unfoldable pub locate : ℕ → Tree A → Path' A → Option (Place A)
  locate k leaf p = none
  locate k (node c l x r) p =
      let left = locate k l (from_left c x r ∷ p) in
      let right = locate k r (from_right c l x ∷ p) in
      if ltb k (key x) then left else if ltb (key x) k then right else some (place c l x r p)

  unfoldable pub remove : ℕ → Tree A → Option (Tree A)
  unfolding locate remove_node
  remove k t = elim (locate k t []) [ none ↦ none | some (place c l x r p) ↦ remove_node c l x r p ]
