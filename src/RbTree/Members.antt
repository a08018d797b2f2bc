-- ===== src/RbTree/Members.antt =====
-- Membership in a tree's list of elements, and what a lookup says about it.
use natporte.Base.{
  ℕ, ◌<◌, ◌≡◌, sym, ap, ◌∙◌, arith, ◌==◌, List, [], ◌∷◌, some, Bool-cases, ==_iff, ==_ne, inl, inr,
  ◌⊎◌,
}
use natporte.RbTree.Order.{Sorted, AllAbove, find_key}
use mathlib.Core.Option.{some-injective}

module _ {A : Type 0} where
  abbrev pub In : A → List A → Type 0
  In a [] = ⊥
  In a (x ∷ xs) = (a ≡ x) ⊎ In a xs

module _ {A : Type 0} (key : A → ℕ) where
  -- What is found is there, under the key asked for.
  pub find_key-In :
      (k : ℕ) (xs : List A) (a : A) → find_key key k xs ≡ some a → In a xs × (key a ≡ k)
  unfolding find_key
  find_key-In k [] a e = cc
  find_key-In k (x ∷ xs) a e = elim (Bool-cases (key x == k)) [
    | inl h ↦
        let same : x ≡ a = some-injective _ _ (rw h at e) in
        (inl (sym same), ap key (sym same) ∙ (==_iff _ _).0 h)
    | inr h ↦ let rest = find_key-In k xs a (rw h at e) in (inr rest.0, rest.1)
  ]

  pub above-key : (k : ℕ) (xs : List A) (a : A) → AllAbove key k xs → In a xs → k < key a
  above-key k [] a h i = elim i [ ]
  above-key k (x ∷ xs) a h (inl e) = rw e h.0
  above-key k (x ∷ xs) a h (inr i) = above-key k xs a h.1 i

  -- A member of a sorted list is found under its key.
  pub find_key_self :
      (xs : List A) (a : A) → Sorted key xs → In a xs → find_key key (key a) xs ≡ some a
  unfolding find_key
  find_key_self [] a s i = elim i [ ]
  find_key_self (x ∷ xs) a s (inl e) =
      rw ((==_iff (key x) (key a)).1 (ap key (sym e))) (ap some (sym e))
  find_key_self (x ∷ xs) a s (inr i) =
      let far = above-key (key x) xs a s.0 i in
      rw (==_ne (key x) (key a) (omega arith)) (find_key_self xs a s.1 i)
