-- ===== src/RbTree/Inside.antt =====
-- A subtree and its surroundings that follow the red-black rules together, down every step.
use natporte.Base.{◌≡◌, refl, sym, [], ◌∷◌}
use natporte.RbTree.{Color, black, red, Tree, leaf, node, from_left, from_right, Path', color_of}
use natporte.RbTree.Balance.{
  IsRedBlack, height, Even, NoRedRed, EvenAbove, NoRedAbove, BlackTop, BlackIfRed, parent_color,
}

module _ {A : Type 0} where
  -- A subtree at the root is black, and else the root above it is.
  abbrev pub TopBlack : Tree A → Path' A → Type 0
  TopBlack t [] = color_of t ≡ black
  TopBlack t (k ∷ p) = BlackTop (k ∷ p)

  pub record Inside (t : Tree A) (p : Path' A) : Type 0 where
    pub no_red_red : NoRedRed t
    pub even : Even t
    pub joint : BlackIfRed (color_of t) (parent_color p)
    pub even_above : EvenAbove (height t) p
    pub no_red_above : NoRedAbove p
    pub top : TopBlack t p

  pub Inside-root : (t : Tree A) → IsRedBlack t → Inside t []
  Inside-root t h = record {
    no_red_red = h.no_red_red;
    even = h.even;
    joint = black_joint t h.root;
    even_above = tt;
    no_red_above = tt;
    top = h.root;
  }
    where
      black_joint : (t : Tree A) → color_of t ≡ black → BlackIfRed (color_of t) black
      black_joint leaf e = tt
      black_joint (node black l x r) e = tt
      black_joint (node red l x r) e = refl

  -- A black node's children may have either colour.
  under_black : (t : Tree A) → BlackIfRed (color_of t) black
  under_black leaf = tt
  under_black (node black l x r) = tt
  under_black (node red l x r) = refl

  under_red : (t : Tree A) → color_of t ≡ black → BlackIfRed (color_of t) red
  under_red leaf e = tt
  under_red (node black l x r) e = tt
  under_red (node red l x r) e = e

  sibling : (t : Tree A) → color_of t ≡ black → BlackIfRed red (color_of t)
  sibling t e = e

  top_left :
      (c : Color) (l r : Tree A) (x : A) (p : Path' A)
      → TopBlack (node c l x r) p
      → BlackTop (from_left c x r ∷ p)
  top_left c l r x [] h = h
  top_left c l r x (k ∷ p) h = h

  top_right :
      (c : Color) (l r : Tree A) (x : A) (p : Path' A)
      → TopBlack (node c l x r) p
      → BlackTop (from_right c l x ∷ p)
  top_right c l r x [] h = h
  top_right c l r x (k ∷ p) h = h

  pub Inside-left :
      (c : Color) (l r : Tree A) (x : A) (p : Path' A)
      → Inside (node c l x r) p
      → Inside l (from_left c x r ∷ p)
  Inside-left black l r x p h = record {
    no_red_red = h.no_red_red.0;
    even = h.even.1;
    joint = under_black l;
    even_above = (sym h.even.0, h.even.2, h.even_above);
    no_red_above = (tt, tt, h.no_red_red.1, h.no_red_above);
    top = top_left black l r x p h.top;
  }
  Inside-left red l r x p h = record {
    no_red_red = h.no_red_red.2;
    even = h.even.1;
    joint = under_red l h.no_red_red.0;
    even_above = (sym h.even.0, h.even.2, h.even_above);
    no_red_above = (h.no_red_red.1, h.joint, h.no_red_red.3, h.no_red_above);
    top = top_left red l r x p h.top;
  }

  pub Inside-right :
      (c : Color) (l r : Tree A) (x : A) (p : Path' A)
      → Inside (node c l x r) p
      → Inside r (from_right c l x ∷ p)
  Inside-right black l r x p h = record {
    no_red_red = h.no_red_red.1;
    even = h.even.2;
    joint = under_black r;
    even_above = (h.even.0, h.even.1, rw (← h.even.0) h.even_above);
    no_red_above = (tt, tt, h.no_red_red.0, h.no_red_above);
    top = top_right black l r x p h.top;
  }
  Inside-right red l r x p h = record {
    no_red_red = h.no_red_red.3;
    even = h.even.2;
    joint = under_red r h.no_red_red.1;
    even_above = (h.even.0, h.even.1, rw (← h.even.0) h.even_above);
    no_red_above = (h.no_red_red.0, h.joint, h.no_red_red.2, h.no_red_above);
    top = top_right red l r x p h.top;
  }
