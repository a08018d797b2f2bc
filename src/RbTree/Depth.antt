-- ===== src/RbTree/Depth.antt =====
-- src/structure.h: how far a search goes down.
use natporte.Base.{
  ℕ, zero, suc, ◌+◌, ◌*◌, ◌^◌, ◌≤◌, ◌≡◌, refl, sym, subst, ap, ltb, leb, if◌then◌else◌, Option,
  some, none, ◌∷◌, length, length-append, arith,
}
use native.Mathlib.Nat.{pow-suc}
use natporte.RbTree.{Color, black, red, Tree, leaf, node, color_of, find}
use natporte.RbTree.Shape.{to_list}
use natporte.RbTree.Balance.{height, Even, NoRedRed, IsRedBlack}

-- One more below a red node.
abbrev extra : Color → ℕ
extra black = 0
extra red = 1

extra-le : (c : Color) → extra c ≤ 1
extra-le black = omega arith
extra-le red = omega arith

module _ {A : Type 0} where
  -- The nodes of the longest way down.
  abbrev depth : Tree A → ℕ
  depth leaf = 0
  depth (node c l x r) = let dl = depth l in let dr = depth r in suc (if leb dl dr then dr else dl)

  depth-height : (t : Tree A) → Even t → NoRedRed t → depth t ≤ 2 * height t + extra (color_of t)
  depth-height leaf e n = omega arith
  depth-height (node black l x r) e n =
      let a = depth-height l e.1 n.0 in
      let b = depth-height r e.2 n.1 in
      ground (arith, a, b, e.0, extra-le (color_of l), extra-le (color_of r))
  depth-height (node red l x r) e n =
      let a = depth-height l e.1 n.2 in
      let b = depth-height r e.2 n.3 in ground (arith, rw n.0 at a, rw n.1 at b, e.0)

  size-height : (t : Tree A) → Even t → 2 ^ height t ≤ length (to_list t) + 1
  size-height leaf e = omega arith
  size-height (node black l x r) e =
      let a = size-height l e.1 in
      let b = size-height r e.2 in
      omega (
        arith,
        a,
        subst (λ h. 2 ^ h ≤ length (to_list r) + 1) (sym e.0) b,
        pow-suc 2 (height l),
        length-append (to_list l) (x ∷ to_list r),
      )
  size-height (node red l x r) e =
      let a = size-height l e.1 in omega (arith, a, length-append (to_list l) (x ∷ to_list r))

module _ {A : Type 0} (key : A → ℕ) where
  -- RB_FIND that gives up below `n` nodes.
  abbrev pub find_within : ℕ → ℕ → Tree A → Option (Option A)
  find_within n k leaf = some none
  find_within zero k (node c l x r) = none
  find_within (suc n) k (node c l x r) =
      let left = find_within n k l in
      let right = find_within n k r in
      if ltb k (key x) then left else if ltb (key x) k then right else some (some x)

  find_within-eq : (n k : ℕ) (t : Tree A) → depth t ≤ n → find_within n k t ≡ some (find key k t)
  unfolding find
  find_within-eq n k leaf h = refl
  find_within-eq zero k (node c l x r) h = absurd (omega arith)
  find_within-eq (suc n) k (node c l x r) h =
      let a = find_within-eq n k l (ground arith) in
      let b = find_within-eq n k r (ground arith) in ground (arith, a, b)

  -- RB_FIND on a red-black tree passes at most `2 * h` nodes, for an `h` with `2 ^ h` at most
  -- one more than the number of elements: a search that gives up below that many nodes finds the
  -- same.
  pub find_within-find :
      (k : ℕ) (t : Tree A)
      → IsRedBlack t
      → (h : ℕ) × (2 ^ h ≤ length (to_list t) + 1) × (find_within (2 * h) k t ≡ some (find key k t))
  find_within-find k t good =
      let bound = depth-height t good.even good.no_red_red in
      (
        height t,
        size-height t good.even,
        find_within-eq (2 * height t) k t (omega (arith, bound, ap extra good.root)),
      )
