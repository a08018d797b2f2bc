-- ===== src/Pool/Lines/Fields.antt =====
-- src/utils.hpp: what `split` promises: the fields between the line feeds.
use mathlib.Core.Option
use natporte.Base.{
  ℕ, zero, suc, ◌+◌, ◌-◌, ◌≤◌, ◌==◌, ◌≡◌, ◌≢◌, ◌⊎◌, inl, inr, refl, sym, ap, ap₂, ◌∙◌, true, false,
  Bool-cases, ==_iff, List, [], ◌∷◌, length, arith,
}
use natporte.Pool.Lines.{line_feed, take, drop, find_from, substr, split_from, first_field, split}
use natporte.Pool.Lines.Search.{
  prepend, fields, join, AllNoFeed, take_all, drop-drop, find_from-drop, Found, find-fields,
}

drop-suc : (i : ℕ) (s : List ℕ) (r : List ℕ) → drop i s ≡ line_feed ∷ r → drop (suc i) s ≡ r
drop-suc i s r h =
    let e : i + 1 ≡ suc i = omega arith in
    ap (λ n. drop n s) (sym e) ∙ sym (drop-drop i 1 s) ∙ ap (drop 1) h

drop-lt : (i : ℕ) (s r : List ℕ) (x : ℕ) → drop i s ≡ x ∷ r → suc (i + length r) ≡ length s
drop-lt zero s r x h = let e : length s ≡ length (x ∷ r) = ap length h in omega (arith, e)
drop-lt (suc i) [] r x h = cc
drop-lt (suc i) (y ∷ s) r x h = omega (arith, drop-lt i s r x h)

-- From a line feed on, the loop gives the fields of the rest.
split_from-fields :
    (fuel : ℕ) (s : List ℕ) (i : ℕ) (r : List ℕ)
    → drop i s ≡ line_feed ∷ r
    → length s ≤ fuel + i
    → split_from fuel s i ≡ fields r
unfolding split_from
split_from-fields zero s i r h enough = absurd (omega (arith, drop-lt i s r line_feed h))
split_from-fields (suc fuel) s i r h enough =
    cases (λ k q. split_from-fields fuel s (suc i + k) q) (find-fields r)
  where
    next : find_from s line_feed (suc i) ≡ Option.map (λ k. suc i + k) (find_from r line_feed 0)
    next =
        find_from-drop s line_feed (suc i)
        ∙ ap (λ x. Option.map (λ k. suc i + k) (find_from x line_feed 0)) (drop-suc i s r h)

    cases :
        ((k : ℕ) (q : List ℕ)
          → drop (suc i + k) s ≡ line_feed ∷ q
          → length s ≤ fuel + (suc i + k)
          → split_from fuel s (suc i + k) ≡ fields q)
        → Found r
        → split_from (suc fuel) s i ≡ fields r
    cases more (inl (missing, whole, free)) = rw (
      split_from,
      next,
      missing,
      whole,
      drop-suc i s r h,
      take_all r (length s) (omega (arith, drop-lt i s r line_feed h)),
    )
    cases more (inr (k, q, found, inside, rest, here)) =
        let width : suc i + k - i ≡ suc k = omega arith in
        let field : drop 1 (substr s i (suc i + k - i)) ≡ take k r =
          ap₂ (λ n (xs : List ℕ). drop 1 (take n xs)) width h in
        rw (
          split_from,
          next,
          found,
          here,
          field,
          more k q (sym (drop-drop (suc i) k s) ∙ ap (drop k) (drop-suc i s r h) ∙ rest)
              (omega (arith, drop-lt i s r line_feed h)),
        )

-- The text starts with a byte that is no line feed.
abbrev pub StartsLine : List ℕ → Type 0
StartsLine [] = ⊥
StartsLine (x ∷ xs) = x ≢ line_feed

pub split-eq-fields : (s : List ℕ) → StartsLine s → split s ≡ fields s
unfolding split first_field
split-eq-fields [] h = absurd h
split-eq-fields (x ∷ xs) h = cases (find-fields (x ∷ xs))
  where
    cases : Found (x ∷ xs) → split (x ∷ xs) ≡ fields (x ∷ xs)
    cases (inl (missing, whole, free)) =
        let first : first_field (x ∷ xs) ≡ x ∷ xs = rw (first_field, missing) refl in
        rw (first, missing, whole) refl
    cases (inr (zero, r, found, inside, rest, here)) = let e : x ≡ line_feed = cc in absurd (h e)
    cases (inr (suc k, r, found, inside, rest, here)) =
        let first : first_field (x ∷ xs) ≡ x ∷ take k xs = rw (first_field, found) refl in
        rw
          (
            first,
            found,
            here,
            split_from-fields (length (x ∷ xs)) (x ∷ xs) (suc k) r rest (omega arith),
          )
          refl

prepend-join : (x : ℕ) (fs : List (List ℕ)) → join (prepend x fs) ≡ x ∷ join fs
unfolding join
prepend-join x [] = refl
prepend-join x (f ∷ []) = refl
prepend-join x (f ∷ g ∷ fs) = refl

join-fields : (s : List ℕ) → join (fields s) ≡ s
unfolding join fields
join-fields [] = refl
join-fields (x ∷ xs) = cases (Bool-cases (x == line_feed)) (join-fields xs) (find-fields xs)
  where
    cases :
        ((x == line_feed) ≡ true) ⊎ ((x == line_feed) ≡ false)
        → join (fields xs) ≡ xs
        → Found xs
        → join (fields (x ∷ xs)) ≡ x ∷ xs
    cases (inl e) back (inl (missing, whole, free)) =
        rw (fields, e, whole, (==_iff x line_feed).0 e, join) refl
    cases (inl e) back (inr (k, r, found, inside, rest, here)) =
        rw (fields, e, here, join)
          (ap₂ (λ y ys. y ∷ ys) (sym ((==_iff x line_feed).0 e)) (ap join (sym here) ∙ back))
    cases (inr e) back f = rw (fields, e, prepend-join x (fields xs), back) refl

prepend-AllNoFeed :
    (x : ℕ) (fs : List (List ℕ)) → x ≢ line_feed → AllNoFeed fs → AllNoFeed (prepend x fs)
prepend-AllNoFeed x [] h free = ((h, tt), tt)
prepend-AllNoFeed x (f ∷ fs) h free = ((h, free.0), free.1)

fields-AllNoFeed : (s : List ℕ) → AllNoFeed (fields s)
unfolding fields
fields-AllNoFeed [] = (tt, tt)
fields-AllNoFeed (x ∷ xs) = cases (Bool-cases (x == line_feed)) (fields-AllNoFeed xs)
  where
    cases :
        ((x == line_feed) ≡ true) ⊎ ((x == line_feed) ≡ false)
        → AllNoFeed (fields xs)
        → AllNoFeed (fields (x ∷ xs))
    cases (inl e) free = rw (fields, e) (tt, free)
    cases (inr e) free = rw (fields, e) (prepend-AllNoFeed x (fields xs) (λ y. ground arith) free)

-- Of a text that is not empty and does not start with a line feed, `split` gives fields without
-- line feeds, and the text is these fields with a line feed between each two: the loop comes to
-- the end of the text and loses nothing.
pub split-Splits : (s : List ℕ) → StartsLine s → (join (split s) ≡ s) × AllNoFeed (split s)
split-Splits s h = rw (split-eq-fields s h) (join-fields s, fields-AllNoFeed s)
