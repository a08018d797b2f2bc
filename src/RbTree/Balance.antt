-- ===== src/RbTree/Balance.antt =====
-- The red-black rules, and that inserting keeps them: no null parent is ever followed.
use natporte.Base.{ℕ, suc, ◌≡◌, refl, sym, subst, ap, ◌∙◌, [], ◌∷◌, some}
use natporte.RbTree.{
  Color, black, red, Tree, leaf, node, Crumb, from_left, from_right, Path', plug, blacken, color_of,
  insert_color,
}

-- The height above a child of height `n`.
abbrev pub up : Color → ℕ → ℕ
up black n = suc n
up red n = n

-- A red node's neighbour of colour `d` is black.
abbrev pub BlackIfRed : Color → Color → Type 0
BlackIfRed black d = Unit
BlackIfRed red d = d ≡ black

module _ {A : Type 0} where
  -- The black nodes down the left spine.
  abbrev pub height : Tree A → ℕ
  height leaf = 0
  height (node black l x r) = suc (height l)
  height (node red l x r) = height l

  -- Every way down passes as many black nodes.
  abbrev pub Even : Tree A → Type 0
  Even leaf = Unit
  Even (node c l x r) = (height l ≡ height r) × Even l × Even r

  -- A red node has black children.
  abbrev pub NoRedRed : Tree A → Type 0
  NoRedRed leaf = Unit
  NoRedRed (node black l x r) = NoRedRed l × NoRedRed r
  NoRedRed (node red l x r) = (color_of l ≡ black) × (color_of r ≡ black) × NoRedRed l × NoRedRed r

  -- The rules of a red-black tree; `leaf` counts as black.
  pub record IsRedBlack (t : Tree A) : Type 0 where
    pub root : color_of t ≡ black
    pub no_red_red : NoRedRed t
    pub even : Even t

  -- The rules for what surrounds a subtree of height `n`.
  abbrev pub parent_color : Path' A → Color
  parent_color [] = black
  parent_color (from_left c x r ∷ p) = c
  parent_color (from_right c l x ∷ p) = c

  abbrev pub EvenAbove : ℕ → Path' A → Type 0
  EvenAbove n [] = Unit
  EvenAbove n (from_left c x r ∷ p) = (height r ≡ n) × Even r × EvenAbove (up c n) p
  EvenAbove n (from_right c l x ∷ p) = (height l ≡ n) × Even l × EvenAbove (up c n) p

  abbrev pub NoRedAbove : Path' A → Type 0
  NoRedAbove [] = Unit
  NoRedAbove (from_left c x r ∷ p) =
      BlackIfRed c (color_of r) × BlackIfRed c (parent_color p) × NoRedRed r × NoRedAbove p
  NoRedAbove (from_right c l x ∷ p) =
      BlackIfRed c (color_of l) × BlackIfRed c (parent_color p) × NoRedRed l × NoRedAbove p

  -- The root, the last parent of the path, is black.
  abbrev pub BlackTop : Path' A → Type 0
  BlackTop [] = Unit
  BlackTop (from_left c x r ∷ []) = c ≡ black
  BlackTop (from_right c l x ∷ []) = c ≡ black
  BlackTop (k ∷ q ∷ p) = BlackTop (q ∷ p)

  black_of : (t : Tree A) → BlackIfRed (color_of t) red → color_of t ≡ black
  black_of leaf h = refl
  black_of (node black l x r) h = refl
  black_of (node red l x r) h = h

  -- A tree that follows the rules in surroundings that do, with the root blackened.
  pub plug-IsRedBlack :
      (t : Tree A) (p : Path' A)
      → NoRedRed t
      → Even t
      → BlackIfRed (color_of t) (parent_color p)
      → EvenAbove (height t) p
      → NoRedAbove p
      → IsRedBlack (blacken (plug t p))
  unfolding plug
  plug-IsRedBlack leaf [] nr ev tp ea na = record { root = refl; no_red_red = tt; even = tt }
  plug-IsRedBlack (node black l x r) [] nr ev tp ea na = record {
    root = refl;
    no_red_red = nr;
    even = ev;
  }
  plug-IsRedBlack (node red l x r) [] nr ev tp ea na = record {
    root = refl;
    no_red_red = (nr.2, nr.3);
    even = ev;
  }
  plug-IsRedBlack t (from_left black x r ∷ p) nr ev tp ea na =
      plug-IsRedBlack (node black t x r) p (nr, na.2) (sym ea.0, ev, ea.1) tt ea.2 na.3
  plug-IsRedBlack t (from_right black l x ∷ p) nr ev tp ea na =
      plug-IsRedBlack (node black l x t) p (na.2, nr) (ea.0, ea.1, ev) tt (rw ea.0 ea.2) na.3
  plug-IsRedBlack t (from_left red x r ∷ p) nr ev tp ea na =
      plug-IsRedBlack (node red t x r) p (black_of t tp, na.0, nr, na.2) (sym ea.0, ev, ea.1) na.1
        ea.2 na.3
  plug-IsRedBlack t (from_right red l x ∷ p) nr ev tp ea na =
      plug-IsRedBlack (node red l x t) p (na.0, black_of t tp, na.2, nr) (ea.0, ea.1, ev) na.1
        (rw ea.0 ea.2) na.3

  pub top_of_tail : (k : Crumb A) (p : Path' A) → BlackTop (k ∷ p) → BlackTop p
  top_of_tail k [] bt = tt
  top_of_tail k (q ∷ p) bt = bt

  -- The fix-up of a red node above which only its parent may be red too ends without a null
  -- dereference, in a tree that follows the rules.
  pub insert_color-IsRedBlack :
      (a : Tree A) (z : A) (b : Tree A) (p : Path' A)
      → NoRedRed (node red a z b)
      → Even (node red a z b)
      → EvenAbove (height a) p
      → NoRedAbove p
      → BlackTop p
      → (t : Tree A) × (insert_color (node red a z b) p ≡ some t) × IsRedBlack t
  unfolding insert_color
  insert_color-IsRedBlack a z b [] nr ev ea na bt =
      (node black a z b, refl, record { root = refl; no_red_red = (nr.2, nr.3); even = ev })
  insert_color-IsRedBlack a z b (from_left black x r ∷ p) nr ev ea na bt = (
    _,
    refl,
    plug-IsRedBlack (node black (node red a z b) x r) p (nr, na.2) (sym ea.0, ev, ea.1) tt ea.2
        na.3,
  )
  insert_color-IsRedBlack a z b (from_right black l x ∷ p) nr ev ea na bt = (
    _,
    refl,
    plug-IsRedBlack (node black l x (node red a z b)) p (na.2, nr) (ea.0, ea.1, ev) tt
        (rw ea.0 ea.2) na.3,
  )
  insert_color-IsRedBlack a z b (from_left red x r ∷ []) nr ev ea na bt = cc
  insert_color-IsRedBlack a z b (from_right red l x ∷ []) nr ev ea na bt = cc
  insert_color-IsRedBlack a z b (from_left red x r ∷ from_left red y u ∷ p) nr ev ea na bt = cc
  insert_color-IsRedBlack a z b (from_left red x r ∷ from_right red u y ∷ p) nr ev ea na bt = cc
  insert_color-IsRedBlack a z b (from_right red l x ∷ from_left red y u ∷ p) nr ev ea na bt = cc
  insert_color-IsRedBlack a z b (from_right red l x ∷ from_right red u y ∷ p) nr ev ea na bt = cc
  insert_color-IsRedBlack a z b (from_left red x r ∷ from_left black y (node red ul w ur) ∷ p) nr ev
        ea na bt =
      insert_color-IsRedBlack (node black (node red a z b) x r) y (node black ul w ur) p
        (refl, refl, (nr, na.2), (na.3.2.2, na.3.2.3))
        (ap suc (sym ea.2.0), (sym ea.0, ev, ea.1), ea.2.1) ea.2.2 na.3.3
        (top_of_tail (from_left black y (node red ul w ur)) p bt)
  insert_color-IsRedBlack a z b (from_left red x r ∷ from_left black y u ∷ p) nr ev ea na bt = (
    _,
    refl,
    plug-IsRedBlack (node black (node red a z b) x (node red r y u)) p
        (nr, (na.0, refl, na.2, na.3.2)) (sym ea.0, ev, (ea.0 ∙ sym ea.2.0, ea.1, ea.2.1)) tt ea.2.2
        na.3.3,
  )
  insert_color-IsRedBlack a z b (from_right red l x ∷ from_left black y (node red ul w ur) ∷ p) nr
        ev ea na bt =
      insert_color-IsRedBlack (node black l x (node red a z b)) y (node black ul w ur) p
        (refl, refl, (na.2, nr), (na.3.2.2, na.3.2.3))
        (ap suc (ea.0 ∙ sym ea.2.0), (ea.0, ea.1, ev), ea.2.1) (rw ea.0 ea.2.2) na.3.3
        (top_of_tail (from_left black y (node red ul w ur)) p bt)
  insert_color-IsRedBlack a z b (from_right red l x ∷ from_left black y u ∷ p) nr ev ea na bt = (
    _,
    refl,
    plug-IsRedBlack (node black (node red l x a) z (node red b y u)) p
        ((na.0, nr.0, na.2, nr.2), (nr.1, refl, nr.3, na.3.2))
        (ea.0 ∙ ev.0, (ea.0, ea.1, ev.1), (sym ev.0 ∙ sym ea.2.0, ev.2, ea.2.1)) tt (rw ea.0 ea.2.2)
        na.3.3,
  )
  insert_color-IsRedBlack a z b (from_right red l x ∷ from_right black (node red ul w ur) y ∷ p) nr
        ev ea na bt =
      insert_color-IsRedBlack (node black ul w ur) y (node black l x (node red a z b)) p
        (refl, refl, (na.3.2.2, na.3.2.3), (na.2, nr))
        (ap suc (ea.2.0 ∙ sym ea.0), ea.2.1, (ea.0, ea.1, ev)) (rw ea.2.0 ea.2.2) na.3.3
        (top_of_tail (from_right black (node red ul w ur) y) p bt)
  insert_color-IsRedBlack a z b (from_right red l x ∷ from_right black u y ∷ p) nr ev ea na bt = (
    _,
    refl,
    plug-IsRedBlack (node black (node red u y l) x (node red a z b)) p
        ((refl, na.0, na.3.2, na.2), nr) (ea.2.0, (ea.2.0 ∙ sym ea.0, ea.2.1, ea.1), ev) tt
        (subst (λ k. EvenAbove (suc k) p) (sym ea.2.0) ea.2.2) na.3.3,
  )
  insert_color-IsRedBlack a z b (from_left red x r ∷ from_right black (node red ul w ur) y ∷ p) nr
        ev ea na bt =
      insert_color-IsRedBlack (node black ul w ur) y (node black (node red a z b) x r) p
        (refl, refl, (na.3.2.2, na.3.2.3), (nr, na.2)) (ap suc ea.2.0, ea.2.1, (sym ea.0, ev, ea.1))
        (rw ea.2.0 ea.2.2) na.3.3 (top_of_tail (from_right black (node red ul w ur) y) p bt)
  insert_color-IsRedBlack a z b (from_left red x r ∷ from_right black u y ∷ p) nr ev ea na bt = (
    _,
    refl,
    plug-IsRedBlack (node black (node red u y a) z (node red b x r)) p
        ((refl, nr.0, na.3.2, nr.2), (nr.1, na.0, nr.3, na.2))
        (ea.2.0 ∙ ev.0, (ea.2.0, ea.2.1, ev.1), (sym ev.0 ∙ sym ea.0, ev.2, ea.1)) tt
        (subst (λ k. EvenAbove (suc k) p) (sym ea.2.0) ea.2.2) na.3.3,
  )
