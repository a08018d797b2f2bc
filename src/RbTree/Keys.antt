-- ===== src/RbTree/Keys.antt =====
-- Inserting, removing and membership in lists of elements with keys.
use natporte.Base.{
  ℕ, ◌≡◌, ◌≢◌, sym, ap, subst, ◌∙◌, arith, ltb, ◌==◌, if◌then◌else◌, List, [], ◌∷◌, ◌++◌, none,
  Bool-cases, ==_iff, inl, inr, ◌⊎◌,
}
use natporte.RbTree.{Tree}
use natporte.RbTree.Shape.{to_list}
use natporte.RbTree.Order.{Sorted, AllBelow, Sorted-split, find_key, insert_key}
use natporte.RbTree.Members.{In, above-key, find_key_self}
use natporte.RbTree.Locate.{Lost}
use mathlib.Core.Option.{some-injective}

module _ {A : Type 0} (key : A → ℕ) where
  -- Without the first element whose key is `k`.
  unfoldable pub remove_key : ℕ → List A → List A
  remove_key k [] = []
  remove_key k (x ∷ xs) = if key x == k then xs else x ∷ remove_key k xs

  pub remove_key-insert_key :
      (elm : A) (xs : List A)
      → find_key key (key elm) xs ≡ none
      → remove_key (key elm) (insert_key key elm xs) ≡ xs
  unfolding remove_key insert_key find_key
  remove_key-insert_key elm [] n = ground arith
  remove_key-insert_key elm (x ∷ xs) n = ground (arith, remove_key-insert_key elm xs)

  remove_key-between :
      (a : A) (bs ws : List A)
      → AllBelow key (key a) bs
      → remove_key (key a) (bs ++ a ∷ ws) ≡ bs ++ ws
  unfolding remove_key
  remove_key-between a [] ws b = ground arith
  remove_key-between a (x ∷ bs) ws b = ground (arith, remove_key-between a bs ws b.1)

  -- What RB_REMOVE leaves, as a function of the list.
  pub Lost-remove_key :
      (a : A) (t u : Tree A)
      → Sorted key (to_list t)
      → Lost key a t u
      → to_list u ≡ remove_key (key a) (to_list t)
  Lost-remove_key a t u s h =
      let parts = Sorted-split key h.bs h.ws a (subst (Sorted key) h.had s) in
      h.has ∙ sym (ap (remove_key (key a)) h.had ∙ remove_key-between a h.bs h.ws parts.1)

  pub In-insert_key : (q elm : A) (xs : List A) → In q (insert_key key elm xs) → (q ≡ elm) ⊎ In q xs
  unfolding insert_key
  In-insert_key q elm [] h = h
  In-insert_key q elm (x ∷ xs) h = elim (Bool-cases (ltb (key elm) (key x))) [
    | inl lt ↦ rw lt at h
    | inr ge ↦ elim (rw ge at h) [
      | inl e ↦ inr (inl e)
      | inr i ↦ elim (In-insert_key q elm xs i) [ inl e ↦ inl e | inr j ↦ inr (inr j) ]
    ]
  ]

  pub insert_key-In : (q elm : A) (xs : List A) → (q ≡ elm) ⊎ In q xs → In q (insert_key key elm xs)
  unfolding insert_key
  insert_key-In q elm [] h = h
  insert_key-In q elm (x ∷ xs) h = elim (Bool-cases (ltb (key elm) (key x))) [
    | inl lt ↦ rw lt h
    | inr ge ↦ rw ge (elim h [
      | inl e ↦ inr (insert_key-In q elm xs (inl e))
      | inr i ↦ elim i [ inl e ↦ inl e | inr j ↦ inr (insert_key-In q elm xs (inr j)) ]
    ])
  ]

  pub In-remove_key : (q : A) (k : ℕ) (xs : List A) → In q (remove_key k xs) → In q xs
  unfolding remove_key
  In-remove_key q k [] h = h
  In-remove_key q k (x ∷ xs) h = elim (Bool-cases (key x == k)) [
    | inl e ↦ inr (rw e at h)
    | inr e ↦ elim (rw e at h) [ inl i ↦ inl i | inr i ↦ inr (In-remove_key q k xs i) ]
  ]

  pub remove_key-In : (q : A) (k : ℕ) (xs : List A) → key q ≢ k → In q xs → In q (remove_key k xs)
  unfolding remove_key
  remove_key-In q k [] ne h = h
  remove_key-In q k (x ∷ xs) ne h = elim (Bool-cases (key x == k)) [
    | inl e ↦ rw e (elim h [ inl i ↦ elim (ne (ap key i ∙ (==_iff _ _).0 e)) [ ] | inr i ↦ i ])
    | inr e ↦ rw e (elim h [ inl i ↦ inl i | inr i ↦ inr (remove_key-In q k xs ne i) ])
  ]

  -- What is left has another key.
  pub remove_key-other :
      (q : A) (k : ℕ) (xs : List A) → Sorted key xs → In q (remove_key k xs) → key q ≢ k
  unfolding remove_key
  remove_key-other q k [] s h = elim h [ ]
  remove_key-other q k (x ∷ xs) s h = elim (Bool-cases (key x == k)) [
    | inl e ↦
        let far = above-key key (key x) xs q s.0 (rw e at h) in
        let same : key x ≡ k = (==_iff _ _).0 e in omega (arith, far, same)
    | inr e ↦ elim (rw e at h) [
      | inl i ↦ let same : key q ≡ key x = ap key i in ground (arith, same, e)
      | inr i ↦ remove_key-other q k xs s.1 i
    ]
  ]

  -- A sorted list has one element for each key.
  pub same_key : (a b : A) (xs : List A) → Sorted key xs → In a xs → In b xs → key a ≡ key b → a ≡ b
  same_key a b xs s i j e = some-injective _ _ (
      sym (find_key_self key xs a s i) ∙ ap (λ k. find_key key k xs) e ∙ find_key_self key xs b s j)
