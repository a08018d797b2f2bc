-- ===== src/RbTree/Order.antt =====
-- Lists of elements in the order of their keys: the abstract view of a tree.
use natporte.Base.{
  ℕ, ◌<◌, ◌≡◌, ◌≢◌, refl, arith, ltb, ltb→lt, ◌==◌, if◌then◌else◌, List, [], ◌∷◌, ◌++◌, Option,
  some, none, Bool-cases, inl, inr,
}

module _ {A : Type 0} (key : A → ℕ) where
  abbrev pub AllBelow : ℕ → List A → Type 0
  AllBelow k [] = Unit
  AllBelow k (x ∷ xs) = (key x < k) × AllBelow k xs

  abbrev pub AllAbove : ℕ → List A → Type 0
  AllAbove k [] = Unit
  AllAbove k (x ∷ xs) = (k < key x) × AllAbove k xs

  abbrev pub Sorted : List A → Type 0
  Sorted [] = Unit
  Sorted (x ∷ xs) = AllAbove (key x) xs × Sorted xs

  -- The element with key `k`.
  unfoldable pub find_key : ℕ → List A → Option A
  find_key k [] = none
  find_key k (x ∷ xs) = if key x == k then some x else find_key k xs

  -- `elm` put before the first greater key.
  unfoldable pub insert_key : A → List A → List A
  insert_key elm [] = elm ∷ []
  insert_key elm (x ∷ xs) = if ltb (key elm) (key x) then elm ∷ x ∷ xs else x ∷ insert_key elm xs

  pub AllAbove-trans : (j k : ℕ) (xs : List A) → j < k → AllAbove k xs → AllAbove j xs
  AllAbove-trans j k [] h a = tt
  AllAbove-trans j k (x ∷ xs) h a = (omega arith, AllAbove-trans j k xs h a.1)

  pub AllBelow-trans : (j k : ℕ) (xs : List A) → j < k → AllBelow j xs → AllBelow k xs
  AllBelow-trans j k [] h a = tt
  AllBelow-trans j k (x ∷ xs) h a = (omega arith, AllBelow-trans j k xs h a.1)

  pub AllBelow-append :
      (k : ℕ) (xs ys : List A) → AllBelow k xs → AllBelow k ys → AllBelow k (xs ++ ys)
  AllBelow-append k [] ys a b = b
  AllBelow-append k (x ∷ xs) ys a b = (a.0, AllBelow-append k xs ys a.1 b)

  pub AllAbove-append :
      (k : ℕ) (xs ys : List A) → AllAbove k xs → AllAbove k ys → AllAbove k (xs ++ ys)
  AllAbove-append k [] ys a b = b
  AllAbove-append k (x ∷ xs) ys a b = (a.0, AllAbove-append k xs ys a.1 b)

  AllAbove-left : (k : ℕ) (xs ys : List A) → AllAbove k (xs ++ ys) → AllAbove k xs
  AllAbove-left k [] ys a = tt
  AllAbove-left k (x ∷ xs) ys a = (a.0, AllAbove-left k xs ys a.1)

  AllAbove-at : (k : ℕ) (xs ys : List A) (x : A) → AllAbove k (xs ++ x ∷ ys) → k < key x
  AllAbove-at k [] ys x a = a.0
  AllAbove-at k (y ∷ xs) ys x a = AllAbove-at k xs ys x a.1

  -- A sorted list around one of its elements.
  pub Sorted-split :
      (xs ys : List A) (x : A)
      → Sorted (xs ++ x ∷ ys)
      → Sorted xs × AllBelow (key x) xs × AllAbove (key x) ys × Sorted ys
  Sorted-split [] ys x s = (tt, tt, s.0, s.1)
  Sorted-split (y ∷ xs) ys x s =
      let rest = Sorted-split xs ys x s.1 in
      (
        (AllAbove-left (key y) xs (x ∷ ys) s.0, rest.0),
        (AllAbove-at (key y) xs ys x s.0, rest.1),
        rest.2,
        rest.3,
      )

  -- Where all keys before are less and all after are greater, the place to insert is between.
  pub insert_key-between :
      (elm : A) (xs ys : List A)
      → AllBelow (key elm) xs
      → AllAbove (key elm) ys
      → insert_key elm (xs ++ ys) ≡ xs ++ elm ∷ ys
  unfolding insert_key
  insert_key-between elm [] [] b a = refl
  insert_key-between elm [] (y ∷ ys) b a = ground arith
  insert_key-between elm (x ∷ xs) ys b a = ground (arith, insert_key-between elm xs ys b.1 a)

  pub find_key-below :
      (k : ℕ) (xs ys : List A) → AllBelow k xs → find_key k (xs ++ ys) ≡ find_key k ys
  unfolding find_key
  find_key-below k [] ys b = refl
  find_key-below k (x ∷ xs) ys b = ground (arith, find_key-below k xs ys b.1)

  pub find_key-above : (k : ℕ) (ys : List A) → AllAbove k ys → find_key k ys ≡ none
  unfolding find_key
  find_key-above k [] a = refl
  find_key-above k (y ∷ ys) a = ground (arith, find_key-above k ys a.1)

  -- Past its first elements a list's greater keys do not matter to a smaller one.
  pub find_key-left :
      (k : ℕ) (xs ys : List A) → AllAbove k ys → find_key k (xs ++ ys) ≡ find_key k xs
  unfolding find_key
  find_key-left k [] ys a = find_key-above k ys a
  find_key-left k (x ∷ xs) ys a = ground (arith, find_key-left k xs ys a)

  AllAbove-insert_key :
      (k : ℕ) (elm : A) (xs : List A) → k < key elm → AllAbove k xs → AllAbove k (insert_key elm xs)
  unfolding insert_key
  AllAbove-insert_key k elm [] h a = (h, tt)
  AllAbove-insert_key k elm (x ∷ xs) h a = elim (Bool-cases (ltb (key elm) (key x))) [
    | inl e ↦ rw e (h, a)
    | inr e ↦ rw e (a.0, AllAbove-insert_key k elm xs h a.1)
  ]

  find_key_miss :
      (k : ℕ) (x : A) (xs : List A)
      → find_key k (x ∷ xs) ≡ none
      → (key x ≢ k) × (find_key k xs ≡ none)
  unfolding find_key
  find_key_miss k x xs n = ground arith

  -- Inserting a new key keeps a list sorted.
  pub insert_key-Sorted :
      (elm : A) (xs : List A)
      → Sorted xs
      → find_key (key elm) xs ≡ none
      → Sorted (insert_key elm xs)
  unfolding insert_key
  insert_key-Sorted elm [] s n = (tt, tt)
  insert_key-Sorted elm (x ∷ xs) s n =
      let miss = find_key_miss (key elm) x xs n in
      elim (Bool-cases (ltb (key elm) (key x))) [
        | inl e ↦ rw e ((ltb→lt _ _ e, AllAbove-trans (key elm) (key x) xs (ltb→lt _ _ e) s.0), s)
        | inr e ↦ rw e (
          AllAbove-insert_key (key x) elm xs (ground (arith, miss, e)) s.0,
          insert_key-Sorted elm xs s.1 miss.1,
        )
      ]

  -- Looking up after inserting a new key.
  pub find_key-insert_key :
      (k : ℕ) (elm : A) (xs : List A)
      → find_key (key elm) xs ≡ none
      → find_key k (insert_key elm xs) ≡ (if key elm == k then some elm else find_key k xs)
  unfolding insert_key find_key
  find_key-insert_key k elm [] n = refl
  find_key-insert_key k elm (x ∷ xs) n = ground (arith, find_key-insert_key k elm xs)
