-- ===== src/RbTree.antt =====
-- The red-black tree macros of src/structure.h, for one tree field and comparison by a key.
-- A tree holds its elements; the parent links above a node are a path, the nearest parent first,
-- so that following `RB_PARENT` is taking the path's head. A null dereference is `none`.
pub mod Order
pub mod Shape
pub mod Inside
pub mod Members
pub mod Insert
pub mod Balance
pub mod Find
pub mod Depth
pub mod Remove
pub mod Rounds
pub mod Recolor
pub mod Listing
pub mod Removal
pub mod Locate
pub mod Keys
mod Examples
use natporte.Base.{
  ℕ, ltb, if◌then◌else◌, Bool, true, false, Option, none, some, List, [], ◌∷◌, ◌++◌,
}

-- RB_BLACK and RB_RED.
pub data Color : Type 0 where
  black red : Color

pub data Tree (A : Type 0) : Type 0 where
  leaf : Tree A
  node : Color → Tree A → A → Tree A → Tree A

-- A parent whose left (right) child the path comes from, with its other child.
pub data Crumb (A : Type 0) : Type 0 where
  from_left : Color → A → Tree A → Crumb A
  from_right : Color → Tree A → A → Crumb A

abbrev pub Path' : Type 0 → Type 0
Path' A = List (Crumb A)

module _ {A : Type 0} where
  abbrev pub color_of : Tree A → Color
  color_of leaf = black
  color_of (node c l x r) = c

  abbrev pub is_red : Tree A → Bool
  is_red leaf = false
  is_red (node red l x r) = true
  is_red (node black l x r) = false

  abbrev pub blacken : Tree A → Tree A
  blacken leaf = leaf
  blacken (node c l x r) = node black l x r

  -- The whole tree around a subtree.
  unfoldable pub plug : Tree A → Path' A → Tree A
  plug t [] = t
  plug t (from_left c x r ∷ p) = plug (node c t x r) p
  plug t (from_right c l x ∷ p) = plug (node c l x t) p

  -- RB_INSERT_COLOR at the subtree `elm`, whose root is red. The colour of a sibling is read
  -- where the source tests `tmp && RB_COLOR(tmp) == RB_RED`.
  unfoldable pub insert_color : Tree A → Path' A → Option (Tree A)
  unfolding plug
  insert_color elm [] = some (blacken elm)
  insert_color elm (from_left black x r ∷ p) = some (blacken (plug (node black elm x r) p))
  insert_color elm (from_right black l x ∷ p) = some (blacken (plug (node black l x elm) p))
  insert_color elm (from_left red x r ∷ []) = none
  insert_color elm (from_right red l x ∷ []) = none
  insert_color elm (from_left red x r ∷ from_left gc y u ∷ p) =
      let up = insert_color (node red (node black elm x r) y (blacken u)) p in
      if is_red u then up else some (blacken (plug (node black elm x (node red r y u)) p))
  insert_color elm (from_right red l x ∷ from_left gc y u ∷ p) =
      let up = insert_color (node red (node black l x elm) y (blacken u)) p in
      if is_red u then up else elim elm [
        | leaf ↦ none
        | node c a z b ↦ some (blacken (plug (node black (node red l x a) z (node red b y u)) p))
      ]
  insert_color elm (from_right red l x ∷ from_right gc u y ∷ p) =
      let up = insert_color (node red (blacken u) y (node black l x elm)) p in
      if is_red u then up else some (blacken (plug (node black (node red u y l) x elm) p))
  insert_color elm (from_left red x r ∷ from_right gc u y ∷ p) =
      let up = insert_color (node red (blacken u) y (node black elm x r)) p in
      if is_red u then up else elim elm [
        | leaf ↦ none
        | node c a z b ↦ some (blacken (plug (node black (node red u y a) z (node red b x r)) p))
      ]

-- Where the search for a key ends: at an element with that key, or below the path's last parent.
pub data Descent (A : Type 0) : Type 0 where
  found : A → Descent A
  below : Path' A → Descent A

-- What RB_INSERT does: the clashing element and no change, the new tree, or a fault.
pub data Inserted (A : Type 0) : Type 0 where
  clash : A → Inserted A
  inserted : Tree A → Inserted A
  fault : Inserted A

module _ {A : Type 0} (key : A → ℕ) where
  unfoldable pub descend : A → Tree A → Path' A → Descent A
  descend elm leaf p = below p
  descend elm (node c l x r) p =
      let left = descend elm l (from_left c x r ∷ p) in
      let right = descend elm r (from_right c l x ∷ p) in
      if ltb (key elm) (key x) then left else if ltb (key x) (key elm) then right else found x

  unfoldable pub insert : A → Tree A → Inserted A
  unfolding descend
  insert elm t = elim (descend elm t []) [
    | found x ↦ clash x
    | below p ↦ elim (insert_color (node red leaf elm leaf) p) [
      | none ↦ fault
      | some t' ↦ inserted t'
    ]
  ]

  -- RB_FIND and RB_NFIND only compare `elm`, with the key `k`.
  unfoldable pub find : ℕ → Tree A → Option A
  find k leaf = none
  find k (node c l x r) =
      let left = find k l in
      let right = find k r in
      if ltb k (key x) then left else if ltb (key x) k then right else some x

  -- The least element whose key is not below `k`; `res` is the best so far.
  unfoldable pub nfind_from : ℕ → Tree A → Option A → Option A
  nfind_from k leaf res = res
  nfind_from k (node c l x r) res =
      let left = nfind_from k l (some x) in
      let right = nfind_from k r res in
      if ltb k (key x) then left else if ltb (key x) k then right else some x

  unfoldable pub nfind : ℕ → Tree A → Option A
  unfolding nfind_from
  nfind k t = nfind_from k t none

module _ {A : Type 0} where
  -- RB_MINMAX: `low` is `val < 0`; `parent` is the last node passed.
  unfoldable pub minmax_from : Bool → Tree A → Option A → Option A
  minmax_from low leaf parent = parent
  minmax_from true (node c l x r) parent = minmax_from true l (some x)
  minmax_from false (node c l x r) parent = minmax_from false r (some x)

  unfoldable pub minmax : Tree A → Bool → Option A
  unfolding minmax_from
  minmax t low = minmax_from low t none
