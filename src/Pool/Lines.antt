-- ===== src/Pool/Lines.antt =====
-- src/utils.hpp: `split`, with a line feed as the separator. A string is the list of its bytes.
pub mod Search
pub mod Fields
use natporte.Base.{
  ℕ, zero, suc, ◌+◌, ◌-◌, ◌==◌, if◌then◌else◌, Bool, true, false, Option, some, none, List, [], ◌∷◌,
  length,
}
use mathlib.Core.Option

abbrev pub line_feed : ℕ
line_feed = 10

module _ {ℓ} {A : Type ℓ} where
  abbrev pub take : ℕ → List A → List A
  take zero xs = []
  take (suc n) [] = []
  take (suc n) (x ∷ xs) = x ∷ take n xs

  abbrev pub drop : ℕ → List A → List A
  drop zero xs = xs
  drop (suc n) [] = []
  drop (suc n) (x ∷ xs) = drop n xs

-- `s.find(c, from)`; `none` is npos.
unfoldable pub find_from : List ℕ → ℕ → ℕ → Option ℕ
find_from [] c from = none
find_from (x ∷ xs) c zero =
    let rest = Option.map suc (find_from xs c 0) in if x == c then some 0 else rest
find_from (x ∷ xs) c (suc from) = Option.map suc (find_from xs c from)

-- `s.substr(i, n)`.
abbrev pub substr : List ℕ → ℕ → ℕ → List ℕ
substr s i n = take n (drop i s)

-- The loop, from the separator at `i` on. Each round finds a later one, so the string's length is
-- enough fuel.
unfoldable pub split_from : ℕ → List ℕ → ℕ → List (List ℕ)
unfolding find_from
split_from zero s i = []
split_from (suc fuel) s i = elim (find_from s line_feed (suc i)) [
  | none ↦ substr s (suc i) (length s) ∷ []
  | some j ↦ drop 1 (substr s i (j - i)) ∷ split_from fuel s j
]

abbrev pub is_empty {ℓ} : {A : Type ℓ} → List A → Bool
is_empty [] = true
is_empty (x ∷ xs) = false

-- `s_src.substr(0, j)`.
unfoldable pub first_field : List ℕ → List ℕ
unfolding find_from
first_field s = elim (find_from s line_feed 0) [ none ↦ s | some j ↦ substr s 0 j ]

-- Nothing comes of a string whose first field is empty.
unfoldable pub split : List ℕ → List (List ℕ)
unfolding find_from split_from first_field
split s =
    if is_empty (first_field s)
    then []
    else first_field s
      ∷ elim (find_from s line_feed 0) [ none ↦ [] | some j ↦ split_from (length s) s j ]
