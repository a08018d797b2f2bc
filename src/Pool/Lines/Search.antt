-- ===== src/Pool/Lines/Search.antt =====
-- src/utils.hpp: the fields of a text, and what a search for a line feed finds.
use natporte.Base.{
  ℕ, zero, suc, ◌+◌, ◌≤◌, ◌<◌, ◌==◌, if◌then◌else◌, ◌≡◌, ◌≢◌, ◌⊎◌, inl, inr, refl, sym, ap, ◌∙◌,
  Option, none, some, true, false, Bool-cases, ==_iff, List, [], ◌∷◌, ◌++◌, length, arith,
}
use mathlib.Core.Option
use natporte.Pool.Lines.{line_feed, take, drop, find_from}

-- The field that the text starts with gets one more byte.
abbrev pub prepend : ℕ → List (List ℕ) → List (List ℕ)
prepend x [] = (x ∷ []) ∷ []
prepend x (f ∷ fs) = (x ∷ f) ∷ fs

-- The fields of a text, also empty ones.
unfoldable pub fields : List ℕ → List (List ℕ)
fields [] = [] ∷ []
fields (x ∷ xs) = let rest = fields xs in if x == line_feed then [] ∷ rest else prepend x rest

-- A separator between each two.
unfoldable pub join : List (List ℕ) → List ℕ
join [] = []
join (f ∷ []) = f
join (f ∷ g ∷ fs) = f ++ line_feed ∷ join (g ∷ fs)

-- No field has a line feed.
abbrev pub NoFeed : List ℕ → Type 0
NoFeed [] = Unit
NoFeed (x ∷ xs) = (x ≢ line_feed) × NoFeed xs

abbrev pub AllNoFeed : List (List ℕ) → Type 0
AllNoFeed [] = Unit
AllNoFeed (f ∷ fs) = NoFeed f × AllNoFeed fs

pub take_all : (xs : List ℕ) (n : ℕ) → length xs ≤ n → take n xs ≡ xs
take_all [] zero h = refl
take_all [] (suc n) h = refl
take_all (x ∷ xs) zero h = absurd (omega arith)
take_all (x ∷ xs) (suc n) h = ap (x ∷◌) (take_all xs n (omega arith))

length-drop : (i : ℕ) (xs : List ℕ) → length (drop i xs) ≤ length xs
length-drop zero xs = omega arith
length-drop (suc i) [] = omega arith
length-drop (suc i) (x ∷ xs) = omega (arith, length-drop i xs)

drop-nil : (k : ℕ) → drop {A = ℕ} k [] ≡ []
drop-nil zero = refl
drop-nil (suc k) = refl

pub drop-drop : (i k : ℕ) (xs : List ℕ) → drop k (drop i xs) ≡ drop (i + k) xs
drop-drop zero k xs = let e : k ≡ 0 + k = omega arith in ap (λ n. drop n xs) e
drop-drop (suc i) k [] = drop-nil k ∙ sym (drop-nil (suc i + k))
drop-drop (suc i) k (x ∷ xs) =
    let e : suc (i + k) ≡ suc i + k = omega arith in drop-drop i k xs ∙ ap (λ n. drop n (x ∷ xs)) e

map_shifts :
    (f g h : ℕ → ℕ) (o : Option ℕ)
    → ((k : ℕ) → f (g k) ≡ h k)
    → Option.map f (Option.map g o) ≡ Option.map h o
map_shifts f g h none e = refl
map_shifts f g h (some k) e = ap some (e k)

-- A search from `i` on is a search in the rest.
pub find_from-drop :
    (s : List ℕ) (c i : ℕ) → find_from s c i ≡ Option.map (λ k. i + k) (find_from (drop i s) c 0)
unfolding find_from
find_from-drop [] c zero = refl
find_from-drop [] c (suc i) = refl
find_from-drop (x ∷ xs) c zero = same (find_from (x ∷ xs) c 0)
  where
    same : (o : Option ℕ) → o ≡ Option.map (λ k. 0 + k) o
    same none = refl
    same (some k) = ap some (omega arith)
find_from-drop (x ∷ xs) c (suc i) =
    ap (Option.map suc) (find_from-drop xs c i)
    ∙ map_shifts suc (λ k. i + k) (λ k. suc i + k) (find_from (drop i xs) c 0) (λ k. omega arith)

-- The first field, and what follows its line feed.
abbrev pub Found : List ℕ → Type 0
Found xs =
    ((find_from xs line_feed 0 ≡ none) × (fields xs ≡ xs ∷ []) × NoFeed xs)
    ⊎ ((k : ℕ) × (r : List ℕ) × (find_from xs line_feed 0 ≡ some k)
        × (k < length xs)
        × (drop k xs ≡ line_feed ∷ r)
        × (fields xs ≡ take k xs ∷ fields r))

pub find-fields : (xs : List ℕ) → Found xs
unfolding find_from fields
find-fields [] = inl (refl, refl, tt)
find-fields (x ∷ xs) = cases (Bool-cases (x == line_feed)) (find-fields xs)
  where
    cases : ((x == line_feed) ≡ true) ⊎ ((x == line_feed) ≡ false) → Found xs → Found (x ∷ xs)
    cases (inl e) h = inr (
      0,
      xs,
      ground arith,
      ground arith,
      ap (λ y. y ∷ xs) ((==_iff x line_feed).0 e),
      ground arith,
    )
    cases (inr e) (inl (missing, whole, free)) =
        inl (rw (e, missing), rw (e, whole), (λ y. ground arith, free))
    cases (inr e) (inr (k, r, found, inside, rest, here)) =
        inr (suc k, r, rw (e, found), ground arith, rest, rw (e, here))
