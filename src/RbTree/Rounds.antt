-- ===== src/RbTree/Rounds.antt =====
-- The rounds of RB_REMOVE_COLOR and the red-black rules.
use natporte.Base.{ℕ, suc, ◌≡◌, refl, sym, ap, ◌∙◌, arith, true, false, Bool-cases, inl, inr}
use natporte.RbTree.{Color, black, red, Tree, leaf, node, blacken, color_of, is_red}
use natporte.RbTree.Balance.{up, height, Even, NoRedRed}
use natporte.RbTree.Remove.{Round, rebuilt, deeper, null_sibling, round_left, round_right}

module _ {A : Type 0} where
  pub not_red : (t : Tree A) → is_red t ≡ false → color_of t ≡ black
  not_red leaf e = refl
  not_red (node black l x r) e = refl
  not_red (node red l x r) e = cc

  -- What a round owes for a child of height `n` below a parent of colour `c`: it makes up for
  -- the black node that is missing, or it passes the lack on to the parent.
  abbrev pub Repairs : Color → ℕ → Round A → Type 0
  Repairs c n (rebuilt u) = (color_of u ≡ c) × NoRedRed u × Even u × (height u ≡ up c (suc n))
  Repairs c n (deeper u) = (color_of u ≡ c) × NoRedRed (blacken u) × Even u × (height u ≡ up c n)
  Repairs c n null_sibling = ⊥

  node-NoRedRed :
      (c : Color) (l r : Tree A) (x : A)
      → color_of l ≡ black
      → color_of r ≡ black
      → NoRedRed l
      → NoRedRed r
      → NoRedRed (node c l x r)
  node-NoRedRed black l r x bl br nl nr = (nl, nr)
  node-NoRedRed red l r x bl br nl nr = (bl, br, nl, nr)

  height-node : (c : Color) (l r : Tree A) (x : A) → height (node c l x r) ≡ up c (height l)
  height-node black l r x = refl
  height-node red l r x = refl

  blacken-NoRedRed : (t : Tree A) → NoRedRed t → NoRedRed (blacken t)
  blacken-NoRedRed leaf h = tt
  blacken-NoRedRed (node black l x r) h = h
  blacken-NoRedRed (node red l x r) h = (h.2, h.3)

  pub blacken-Even : (t : Tree A) → Even t → Even (blacken t)
  blacken-Even leaf h = tt
  blacken-Even (node c l x r) h = h

  pub blacken-red :
      (t : Tree A)
      → is_red t ≡ true
      → (color_of (blacken t) ≡ black) × (height (blacken t) ≡ suc (height t))
  blacken-red leaf e = cc
  blacken-red (node black l x r) e = cc
  blacken-red (node red l x r) e = (refl, refl)

  -- A node between two black ones, both of height `suc n`.
  over :
      (c : Color) (n : ℕ) (l r : Tree A) (x : A)
      → color_of l ≡ black
      → color_of r ≡ black
      → NoRedRed l
      → NoRedRed r
      → Even l
      → Even r
      → height l ≡ suc n
      → height r ≡ suc n
      → Repairs c n (rebuilt (node c l x r))
  over c n l r x bl br nl nr el er hl hr = (
    refl,
    node-NoRedRed c l r x bl br nl nr,
    (hl ∙ sym hr, el, er),
    height-node c l r x ∙ ap (up c) hl,
  )

  pub round_left-Repairs :
      (c : Color) (t : Tree A) (x : A) (tmp : Tree A)
      → color_of tmp ≡ black
      → height tmp ≡ suc (height t)
      → NoRedRed tmp
      → Even tmp
      → NoRedRed t
      → Even t
      → Repairs c (height t) (round_left c t x tmp)
  unfolding round_left
  round_left-Repairs c t x leaf bk h nr ev nt et = omega arith
  round_left-Repairs c t x (node red a y b) bk h nr ev nt et = cc
  round_left-Repairs c t x (node black a y b) bk h nr ev nt et = elim (Bool-cases (is_red b)) [
    | inl rb ↦
        let far = blacken-red b rb in
        let made =
          over c (height t) (node black t x a) (blacken b) y refl far.0 (nt, nr.0)
            (blacken-NoRedRed b nr.1) (omega arith, et, ev.1) (blacken-Even b ev.2) refl
            (far.1 ∙ omega arith) in
        elim (Bool-cases (is_red a)) [ inl ra ↦ rw (ra, rb) made | inr na ↦ rw (na, rb) made ]
    | inr nb ↦ near a nb h nr ev
  ]
    where
      near :
          (a : Tree A)
          → is_red b ≡ false
          → suc (height a) ≡ suc (height t)
          → NoRedRed a × NoRedRed b
          → Even (node black a y b)
          → Repairs c (height t) (round_left c t x (node black a y b))
      near leaf nb h nr ev =
          rw nb (
            refl,
            (nt, (refl, not_red b nb, nr.0, nr.1)),
            (omega arith, et, ev),
            height-node c t _ x,
          )
      near (node black a1 z a2) nb h nr ev =
          rw nb (
            refl,
            (nt, (refl, not_red b nb, nr.0, nr.1)),
            (omega arith, et, ev),
            height-node c t _ x,
          )
      near (node red a1 z a2) nb h nr ev = rw nb (
          over c (height t) (node black t x a1) (node black a2 y b) z refl refl (nt, nr.0.2)
            (nr.0.3, nr.1) (omega arith, et, ev.1.1) (omega arith, ev.1.2, ev.2) refl (omega arith))

  pub round_right-Repairs :
      (c : Color) (t : Tree A) (x : A) (tmp : Tree A)
      → color_of tmp ≡ black
      → height tmp ≡ suc (height t)
      → NoRedRed tmp
      → Even tmp
      → NoRedRed t
      → Even t
      → Repairs c (height t) (round_right c tmp x t)
  unfolding round_right
  round_right-Repairs c t x leaf bk h nr ev nt et = omega arith
  round_right-Repairs c t x (node red a y b) bk h nr ev nt et = cc
  round_right-Repairs c t x (node black a y b) bk h nr ev nt et = elim (Bool-cases (is_red a)) [
    | inl ra ↦
        let far = blacken-red a ra in
        let made =
          over c (height t) (blacken a) (node black b x t) y far.0 refl (blacken-NoRedRed a nr.0)
            (nr.1, nt) (blacken-Even a ev.1) (omega arith, ev.2, et) (far.1 ∙ omega arith)
            (omega arith) in
        elim (Bool-cases (is_red b)) [ inl rb ↦ rw (rb, ra) made | inr nb ↦ rw (nb, ra) made ]
    | inr na ↦ near b na h nr ev
  ]
    where
      near :
          (b : Tree A)
          → is_red a ≡ false
          → suc (height a) ≡ suc (height t)
          → NoRedRed a × NoRedRed b
          → Even (node black a y b)
          → Repairs c (height t) (round_right c (node black a y b) x t)
      near leaf na h nr ev = rw na (
        refl,
        ((not_red a na, refl, nr.0, nr.1), nt),
        (omega arith, ev, et),
        height-node c _ t x ∙ ap (up c) (omega arith),
      )
      near (node black b1 z b2) na h nr ev = rw na (
        refl,
        ((not_red a na, refl, nr.0, nr.1), nt),
        (omega arith, ev, et),
        height-node c _ t x ∙ ap (up c) (omega arith),
      )
      near (node red b1 z b2) na h nr ev = rw na (
          over c (height t) (node black a y b1) (node black b2 x t) z refl refl (nr.0, nr.1.2)
            (nr.1.3, nt) (omega arith, ev.1, ev.2.1) (omega arith, ev.2.2, et) (omega arith)
            (omega arith))
