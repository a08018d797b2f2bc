-- ===== src/RbTree/Shape.antt =====
-- The elements of a tree in order, and what surrounds a subtree.
use natporte.Base.{◌≡◌, refl, sym, ap, Bool-cases, inl, inr, ◌∙◌, List, [], ◌∷◌, ◌++◌, some}
use natporte.RbTree.{
  black, red, Tree, leaf, node, from_left, from_right, Path', plug, blacken, is_red, insert_color,
}
use mathlib.Core.Option.{some-injective}
use mathlib.Core.List.{append_assoc, append-nil}

module _ {A : Type 0} where
  abbrev pub to_list : Tree A → List A
  to_list leaf = []
  to_list (node c l x r) = to_list l ++ x ∷ to_list r

  -- The elements that stand before a subtree, and after it.
  abbrev pub before : Path' A → List A
  before [] = []
  before (from_left c x r ∷ p) = before p
  before (from_right c l x ∷ p) = before p ++ to_list l ++ x ∷ []

  abbrev pub after : Path' A → List A
  after [] = []
  after (from_left c x r ∷ p) = x ∷ to_list r ++ after p
  after (from_right c l x ∷ p) = after p

  pub to_list-plug :
      (t : Tree A) (p : Path' A) → to_list (plug t p) ≡ before p ++ (to_list t ++ after p)
  unfolding plug
  to_list-plug t [] = sym (append-nil (to_list t))
  to_list-plug t (from_left c x r ∷ p) = simp (to_list-plug (node c t x r) p, append_assoc)
  to_list-plug t (from_right c l x ∷ p) = simp (to_list-plug (node c l x t) p, append_assoc)

  pub to_list-blacken : (t : Tree A) → to_list (blacken t) ≡ to_list t
  to_list-blacken leaf = refl
  to_list-blacken (node c l x r) = refl

  rooted :
      (s : Tree A) (p : Path' A) {t : Tree A}
      → some (blacken (plug s p)) ≡ some t
      → to_list t ≡ before p ++ (to_list s ++ after p)
  rooted s p e =
      ap to_list (sym (some-injective _ _ e)) ∙ to_list-blacken (plug s p) ∙ to_list-plug s p

  -- Recolouring and rotating keep the elements in order.
  pub to_list-insert_color :
      (elm : Tree A) (p : Path' A) {t : Tree A}
      → insert_color elm p ≡ some t
      → to_list t ≡ before p ++ (to_list elm ++ after p)
  unfolding insert_color
  to_list-insert_color elm [] e = rooted elm [] (e ∙ refl)
  to_list-insert_color elm (from_left black x r ∷ p) e =
      rooted (node black elm x r) p e ∙ simp append_assoc
  to_list-insert_color elm (from_right black l x ∷ p) e =
      rooted (node black l x elm) p e ∙ simp append_assoc
  to_list-insert_color elm (from_left red x r ∷ []) e = cc
  to_list-insert_color elm (from_right red l x ∷ []) e = cc
  to_list-insert_color elm (from_left red x r ∷ from_left gc y u ∷ p) e =
      elim (Bool-cases (is_red u)) [
        | inl h ↦
            to_list-insert_color (node red (node black elm x r) y (blacken u)) p (rw h at e)
            ∙ simp (append_assoc, to_list-blacken)
        | inr h ↦ rooted (node black elm x (node red r y u)) p (rw h at e) ∙ simp append_assoc
      ]
  to_list-insert_color leaf (from_right red l x ∷ from_left gc y u ∷ p) e =
      elim (Bool-cases (is_red u)) [
        | inl h ↦
            to_list-insert_color (node red (node black l x leaf) y (blacken u)) p (rw h at e)
            ∙ simp (append_assoc, to_list-blacken)
        | inr h ↦ cc (rw h at e)
      ]
  to_list-insert_color (node c a z b) (from_right red l x ∷ from_left gc y u ∷ p) e =
      elim (Bool-cases (is_red u)) [
        | inl h ↦
            to_list-insert_color (node red (node black l x (node c a z b)) y (blacken u)) p
              (rw h at e)
            ∙ simp (append_assoc, to_list-blacken)
        | inr h ↦
            rooted (node black (node red l x a) z (node red b y u)) p (rw h at e)
            ∙ simp append_assoc
      ]
  to_list-insert_color elm (from_right red l x ∷ from_right gc u y ∷ p) e =
      elim (Bool-cases (is_red u)) [
        | inl h ↦
            to_list-insert_color (node red (blacken u) y (node black l x elm)) p (rw h at e)
            ∙ simp (append_assoc, to_list-blacken)
        | inr h ↦ rooted (node black (node red u y l) x elm) p (rw h at e) ∙ simp append_assoc
      ]
  to_list-insert_color leaf (from_left red x r ∷ from_right gc u y ∷ p) e =
      elim (Bool-cases (is_red u)) [
        | inl h ↦
            to_list-insert_color (node red (blacken u) y (node black leaf x r)) p (rw h at e)
            ∙ simp (append_assoc, to_list-blacken)
        | inr h ↦ cc (rw h at e)
      ]
  to_list-insert_color (node c a z b) (from_left red x r ∷ from_right gc u y ∷ p) e =
      elim (Bool-cases (is_red u)) [
        | inl h ↦
            to_list-insert_color (node red (blacken u) y (node black (node c a z b) x r)) p
              (rw h at e)
            ∙ simp (append_assoc, to_list-blacken)
        | inr h ↦
            rooted (node black (node red u y a) z (node red b x r)) p (rw h at e)
            ∙ simp append_assoc
      ]
