-- ===== src/RbTree/Listing.antt =====
-- RB_REMOVE_COLOR and RB_REMOVE keep the other elements in order.
use natporte.Base.{
  ◌≡◌, refl, subst, ap, ◌∙◌, List, [], ◌∷◌, ◌++◌, Option, some, none, false, Bool-cases, inl, inr,
}
use natporte.RbTree.{
  Color, black, red, Tree, leaf, node, from_left, from_right, Path', plug, blacken, is_red,
}
use natporte.RbTree.Shape.{to_list, before, after, to_list-plug, to_list-blacken}
use natporte.RbTree.Remove.{
  Round, rebuilt, deeper, null_sibling, round_left, round_right, remove_color, last_round, finish,
  stop, replaced,
}
use mathlib.Core.List.{append_assoc}

module _ {A : Type 0} where
  -- The tree of a round holds these elements.
  abbrev Lists : List A → Round A → Type 0
  Lists xs (rebuilt u) = to_list u ≡ xs
  Lists xs (deeper u) = to_list u ≡ xs
  Lists xs null_sibling = Unit

  left-Lists :
      (c : Color) (t : Tree A) (x : A) (tmp : Tree A)
      → Lists (to_list t ++ x ∷ to_list tmp) (round_left c t x tmp)
  unfolding round_left
  left-Lists c t x leaf = tt
  left-Lists c t x (node k a y b) = elim (Bool-cases (is_red b)) [
    | inl rb ↦ elim (Bool-cases (is_red a)) [
      | inl ra ↦ rw (ra, rb) (simp (append_assoc, to_list-blacken))
      | inr na ↦ rw (na, rb) (simp (append_assoc, to_list-blacken))
    ]
    | inr nb ↦ near a nb
  ]
    where
      near :
          (a : Tree A)
          → is_red b ≡ false
          → Lists (to_list t ++ x ∷ to_list (node k a y b)) (round_left c t x (node k a y b))
      near leaf nb = rw nb refl
      near (node black a1 z a2) nb = rw nb refl
      near (node red a1 z a2) nb = rw nb (simp append_assoc)

  right-Lists :
      (c : Color) (t : Tree A) (x : A) (tmp : Tree A)
      → Lists (to_list tmp ++ x ∷ to_list t) (round_right c tmp x t)
  unfolding round_right
  right-Lists c t x leaf = tt
  right-Lists c t x (node k a y b) = elim (Bool-cases (is_red a)) [
    | inl ra ↦ elim (Bool-cases (is_red b)) [
      | inl rb ↦ rw (rb, ra) (simp (append_assoc, to_list-blacken))
      | inr nb ↦ rw (nb, ra) (simp (append_assoc, to_list-blacken))
    ]
    | inr na ↦ near b na
  ]
    where
      near :
          (b : Tree A)
          → is_red a ≡ false
          → Lists (to_list (node k a y b) ++ x ∷ to_list t) (round_right c (node k a y b) x t)
      near leaf na = rw na refl
      near (node black b1 z b2) na = rw na refl
      near (node red b1 z b2) na = rw na (simp append_assoc)

  -- The result, if there is one, holds these elements.
  abbrev pub Holds : List A → Option (Tree A) → Type 0
  Holds xs none = Unit
  Holds xs (some u) = to_list u ≡ xs

  abbrev pub around : Tree A → Path' A → List A
  around t p = before p ++ (to_list t ++ after p)

  stop-Holds : (t : Tree A) (p : Path' A) → Holds (around t p) (stop t p)
  stop-Holds t p =
      to_list-plug (blacken t) p ∙ ap (λ xs. before p ++ (xs ++ after p)) (to_list-blacken t)

  finish-Holds : (t : Tree A) (p : Path' A) → Holds (around t p) (finish t p)
  finish-Holds t p = to_list-blacken (plug t p) ∙ to_list-plug t p

  last-Holds :
      (xs : List A) (r : Round A) (q : Path' A)
      → Lists xs r
      → Holds (before q ++ (xs ++ after q)) (last_round r q)
  last-Holds xs (rebuilt u) q h = finish-Holds u q ∙ ap (λ ys. before q ++ (ys ++ after q)) h
  last-Holds xs (deeper u) q h = stop-Holds u q ∙ ap (λ ys. before q ++ (ys ++ after q)) h
  last-Holds xs null_sibling q h = tt

  as_Holds : {xs ys : List A} (o : Option (Tree A)) → xs ≡ ys → Holds xs o → Holds ys o
  as_Holds o e h = subst (λ zs. Holds zs o) e h

  round-Holds :
      (xs : List A) (r : Round A) (p : Path' A)
      → Lists xs r
      → ((t : Tree A) → Holds (around t p) (remove_color t p))
      → Holds
          (before p ++ (xs ++ after p))
          (elim r [ rebuilt t ↦ finish t p | deeper t ↦ remove_color t p | null_sibling ↦ none ])
  round-Holds xs (rebuilt u) p h ih = finish-Holds u p ∙ ap (λ ys. before p ++ (ys ++ after p)) h
  round-Holds xs (deeper u) p h ih =
      as_Holds (remove_color u p) (ap (λ ys. before p ++ (ys ++ after p)) h) (ih u)
  round-Holds xs null_sibling p h ih = tt

  pub remove_color-Holds : (p : Path' A) (t : Tree A) → Holds (around t p) (remove_color t p)
  unfolding remove_color
  remove_color-Holds [] t = stop-Holds t []
  remove_color-Holds (from_left c x leaf ∷ p) t = elim (Bool-cases (is_red t)) [
    | inl rt ↦ rw rt (stop-Holds t (from_left c x leaf ∷ p))
    | inr nt ↦ rw nt tt
  ]
  remove_color-Holds (from_left c x (node red a y b) ∷ p) t = elim (Bool-cases (is_red t)) [
    | inl rt ↦ rw rt (stop-Holds t (from_left c x (node red a y b) ∷ p))
    | inr nt ↦ rw nt (
        as_Holds (last_round (round_left red t x a) (from_left black y b ∷ p)) (simp append_assoc)
          (last-Holds _ (round_left red t x a) (from_left black y b ∷ p) (left-Lists red t x a)))
  ]
  remove_color-Holds (from_left c x (node black a y b) ∷ p) t = elim (Bool-cases (is_red t)) [
    | inl rt ↦ rw rt (stop-Holds t (from_left c x (node black a y b) ∷ p))
    | inr nt ↦ rw nt (
        as_Holds _ (simp append_assoc) (
          round-Holds _ (round_left c t x (node black a y b)) p
            (left-Lists c t x (node black a y b)) (remove_color-Holds p)))
  ]
  remove_color-Holds (from_right c leaf x ∷ p) t = elim (Bool-cases (is_red t)) [
    | inl rt ↦ rw rt (stop-Holds t (from_right c leaf x ∷ p))
    | inr nt ↦ rw nt tt
  ]
  remove_color-Holds (from_right c (node red a y b) x ∷ p) t = elim (Bool-cases (is_red t)) [
    | inl rt ↦ rw rt (stop-Holds t (from_right c (node red a y b) x ∷ p))
    | inr nt ↦ rw nt (
        as_Holds (last_round (round_right red b x t) (from_right black a y ∷ p)) (simp append_assoc)
          (last-Holds _ (round_right red b x t) (from_right black a y ∷ p) (right-Lists red t x b)))
  ]
  remove_color-Holds (from_right c (node black a y b) x ∷ p) t = elim (Bool-cases (is_red t)) [
    | inl rt ↦ rw rt (stop-Holds t (from_right c (node black a y b) x ∷ p))
    | inr nt ↦ rw nt (
        as_Holds _ (simp append_assoc) (
          round-Holds _ (round_right c (node black a y b) x t) p
            (right-Lists c t x (node black a y b)) (remove_color-Holds p)))
  ]

  pub replaced-Holds : (c : Color) (t : Tree A) (p : Path' A) → Holds (around t p) (replaced c t p)
  unfolding replaced
  replaced-Holds black t p = remove_color-Holds p t
  replaced-Holds red t p = to_list-plug t p
