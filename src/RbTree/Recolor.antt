-- ===== src/RbTree/Recolor.antt =====
-- RB_REMOVE_COLOR keeps the red-black rules and follows no null pointer.
use natporte.Base.{
  ℕ, suc, ◌≡◌, refl, sym, subst, ◌∙◌, arith, [], ◌∷◌, Option, some, none, true, false, Bool-cases,
  inl, inr,
}
use natporte.RbTree.{
  Color, black, red, Tree, leaf, node, from_left, from_right, Path', plug, blacken, color_of,
  is_red,
}
use natporte.RbTree.Balance.{
  up, BlackIfRed, height, Even, NoRedRed, IsRedBlack, EvenAbove, NoRedAbove, BlackTop, parent_color,
  plug-IsRedBlack, top_of_tail,
}
use natporte.RbTree.Inside.{TopBlack}
use natporte.RbTree.Remove.{
  Round, rebuilt, deeper, null_sibling, round_left, round_right, remove_color, last_round, finish,
}
use natporte.RbTree.Rounds.{
  Repairs, round_left-Repairs, round_right-Repairs, blacken-red, blacken-Even,
}

raise : (c : Color) (n : ℕ) → up c (suc n) ≡ suc (up c n)
raise black n = refl
raise red n = refl

module _ {A : Type 0} where
  black_root : (t : Tree A) (p : Path' A) → TopBlack t p → blacken (plug t p) ≡ plug t p
  unfolding plug
  black_root leaf [] h = refl
  black_root (node black l x r) [] h = refl
  black_root (node red l x r) [] h = cc
  black_root t (from_left c x r ∷ []) h = black_root (node c t x r) [] h
  black_root t (from_left c x r ∷ k ∷ p) h = black_root (node c t x r) (k ∷ p) h
  black_root t (from_right c l x ∷ []) h = black_root (node c l x t) [] h
  black_root t (from_right c l x ∷ k ∷ p) h = black_root (node c l x t) (k ∷ p) h

  -- A black subtree of the right height completes a tree.
  pub completes :
      (t : Tree A) (p : Path' A)
      → color_of t ≡ black
      → NoRedRed t
      → Even t
      → EvenAbove (height t) p
      → NoRedAbove p
      → TopBlack t p
      → IsRedBlack (plug t p)
  completes t p bt nr ev ea na top =
      subst IsRedBlack (black_root t p top)
        (plug-IsRedBlack t p nr ev (subst (λ c. BlackIfRed c (parent_color p)) (sym bt) tt) ea na)

  -- A result that is there and follows the rules.
  abbrev pub Made : Option (Tree A) → Type 0
  Made o = (u : Tree A) × (o ≡ some u) × IsRedBlack u

  -- What the fix-up needs above a child of height `n` that lacks one.
  abbrev pub Lacks : ℕ → Path' A → Type 0
  Lacks n p = EvenAbove (suc n) p × NoRedAbove p × BlackTop p

  is_red-of : (t : Tree A) → color_of t ≡ red → is_red t ≡ true
  is_red-of leaf e = cc
  is_red-of (node black l x r) e = cc
  is_red-of (node red l x r) e = refl

  last-Made :
      (n : ℕ) (r : Round A) (q : Path' A)
      → parent_color q ≡ black
      → Repairs red n r
      → Lacks n q
      → ((t : Tree A) → BlackTop q → TopBlack (blacken t) q)
      → Made (last_round r q)
  last-Made n (rebuilt u) q pb h (ea, na, bt) top =
      (blacken (plug u q), refl, plug-IsRedBlack u q h.1 h.2 (rw (h.0, pb) refl) (rw h.3 ea) na)
  last-Made n (deeper u) q pb h (ea, na, bt) top =
      let far = blacken-red u (is_red-of u h.0) in
      (
        plug (blacken u) q,
        refl,
        completes (blacken u) q far.0 h.1 (blacken-Even u h.2) (rw (far.1, h.3) ea) na (top u bt),
      )
  last-Made n null_sibling q pb h lacks top = elim h [ ]

  -- A round with a black sibling, where `ih` goes on above the parent.
  round-Made :
      (c : Color) (n : ℕ) (p : Path' A) (r : Round A)
      → ((t : Tree A)
          → NoRedRed (blacken t)
          → Even t
          → Lacks (height t) p
          → Made (remove_color t p))
      → Repairs c n r
      → BlackIfRed c (parent_color p)
      → EvenAbove (up c (suc n)) p
      → NoRedAbove p
      → BlackTop p
      → Made (elim r [ rebuilt t ↦ finish t p | deeper t ↦ remove_color t p | null_sibling ↦ none ])
  round-Made c n p (rebuilt u) ih h joint ea na bt =
      (blacken (plug u p), refl, plug-IsRedBlack u p h.1 h.2 (rw h.0 joint) (rw h.3 ea) na)
  round-Made c n p (deeper u) ih h joint ea na bt =
      ih u h.1 h.2 (rw h.3 (subst (λ m. EvenAbove m p) (raise c n) ea), na, bt)
  round-Made c n p null_sibling ih h joint ea na bt = elim h [ ]

  uncover : (t : Tree A) → is_red t ≡ false → NoRedRed (blacken t) → NoRedRed t
  uncover leaf e h = tt
  uncover (node black l x r) e h = h
  uncover (node red l x r) e h = cc

  red-Made :
      (t : Tree A) (p : Path' A)
      → is_red t ≡ true
      → NoRedRed (blacken t)
      → Even t
      → Lacks (height t) p
      → TopBlack (blacken t) p
      → Made (some (plug (blacken t) p))
  red-Made t p e nr ev (ea, na, bt) top =
      let far = blacken-red t e in
      (
        plug (blacken t) p,
        refl,
        completes (blacken t) p far.0 nr (blacken-Even t ev) (rw far.1 ea) na top,
      )

  root-Made : (t : Tree A) → NoRedRed (blacken t) → Even t → IsRedBlack (blacken t)
  root-Made leaf nr ev = record { root = refl; no_red_red = tt; even = tt }
  root-Made (node c l x r) nr ev = record { root = refl; no_red_red = nr; even = ev }

  black_left : (y : A) (b : Tree A) (p : Path' A) → BlackTop p → BlackTop (from_left black y b ∷ p)
  black_left y b [] h = refl
  black_left y b (k ∷ p) h = h

  black_right :
      (a : Tree A) (y : A) (p : Path' A) → BlackTop p → BlackTop (from_right black a y ∷ p)
  black_right a y [] h = refl
  black_right a y (k ∷ p) h = h

  -- The fix-up after a removal ends without a null dereference, in a tree that follows the rules.
  pub remove_color-IsRedBlack :
      (p : Path' A) (t : Tree A)
      → NoRedRed (blacken t)
      → Even t
      → Lacks (height t) p
      → Made (remove_color t p)
  unfolding remove_color plug
  remove_color-IsRedBlack [] t nr ev lacks = (blacken t, refl, root-Made t nr ev)
  remove_color-IsRedBlack (from_left c x leaf ∷ p) t nr ev (ea, na, bt) =
      let no : ⊥ = omega (arith, ea.0) in elim no [ ]
  remove_color-IsRedBlack (from_left red x (node red a y b) ∷ p) t nr ev (ea, na, bt) = cc (na.0)
  remove_color-IsRedBlack (from_left black x (node red a y b) ∷ p) t nr ev (ea, na, bt) =
      elim (Bool-cases (is_red t)) [
        | inl rt ↦
            rw rt (red-Made t (from_left black x (node red a y b) ∷ p) rt nr ev (ea, na, bt) bt)
        | inr nt ↦ rw nt (
            last-Made (height t) (round_left red t x a) (from_left black y b ∷ p) refl
              (round_left-Repairs red t x a na.2.0 ea.0 na.2.2 ea.1.1 (uncover t nt nr) ev)
              (
                (sym ea.1.0 ∙ ea.0, ea.1.2, ea.2),
                (tt, tt, na.2.3, na.3),
                black_left y b p (top_of_tail (from_left black x (node red a y b)) p bt),
              )
              (λ u h. h))
      ]
  remove_color-IsRedBlack (from_left c x (node black a y b) ∷ p) t nr ev (ea, na, bt) =
      elim (Bool-cases (is_red t)) [
        | inl rt ↦
            rw rt (red-Made t (from_left c x (node black a y b) ∷ p) rt nr ev (ea, na, bt) bt)
        | inr nt ↦ rw nt (
            round-Made c (height t) p (round_left c t x (node black a y b))
              (remove_color-IsRedBlack p)
              (round_left-Repairs c t x (node black a y b) refl ea.0 na.2 ea.1 (uncover t nt nr) ev)
              na.1 ea.2 na.3 (top_of_tail (from_left c x (node black a y b)) p bt))
      ]
  remove_color-IsRedBlack (from_right c leaf x ∷ p) t nr ev (ea, na, bt) =
      let no : ⊥ = omega (arith, ea.0) in elim no [ ]
  remove_color-IsRedBlack (from_right red (node red a y b) x ∷ p) t nr ev (ea, na, bt) = cc (na.0)
  remove_color-IsRedBlack (from_right black (node red a y b) x ∷ p) t nr ev (ea, na, bt) =
      elim (Bool-cases (is_red t)) [
        | inl rt ↦
            rw rt (red-Made t (from_right black (node red a y b) x ∷ p) rt nr ev (ea, na, bt) bt)
        | inr nt ↦ rw nt (
            last-Made (height t) (round_right red b x t) (from_right black a y ∷ p) refl
              (round_right-Repairs red t x b na.2.1 (sym ea.1.0 ∙ ea.0) na.2.3 ea.1.2
                (uncover t nt nr) ev)
              (
                (ea.0, ea.1.1, ea.2),
                (tt, tt, na.2.2, na.3),
                black_right a y p (top_of_tail (from_right black (node red a y b) x) p bt),
              )
              (λ u h. h))
      ]
  remove_color-IsRedBlack (from_right c (node black a y b) x ∷ p) t nr ev (ea, na, bt) =
      elim (Bool-cases (is_red t)) [
        | inl rt ↦
            rw rt (red-Made t (from_right c (node black a y b) x ∷ p) rt nr ev (ea, na, bt) bt)
        | inr nt ↦ rw nt (
            round-Made c (height t) p (round_right c (node black a y b) x t)
              (remove_color-IsRedBlack p)
              (round_right-Repairs c t x (node black a y b) refl ea.0 na.2 ea.1 (uncover t nt nr)
                ev)
              na.1 ea.2 na.3 (top_of_tail (from_right c (node black a y b) x) p bt))
      ]
