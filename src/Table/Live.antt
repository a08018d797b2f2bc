-- ===== src/Table/Live.antt =====
-- The memory of the entries: a pointer to an entry may be read through exactly while the entry is
-- in the table and is not freed. `dangling` are the entries that were freed while the table had
-- them.
use natporte.Base.{ℕ, ◌==◌, ◌≡◌, ◌||◌, ◌&&◌, not, refl, Bool, true, false, List, [], ◌∷◌, arith}
use natporte.RbTree.Shape.{to_list}
use natporte.RbTree.Members.{In}
use natporte.Table.{Table}

abbrev pub member : ℕ → List ℕ → Bool
member p [] = false
member p (x ∷ xs) = p == x || member p xs

unfoldable pub is_live : Table → List ℕ → ℕ → Bool
is_live t dangling p = member p (to_list t.l2w) && not (member p dangling)

member-In : (p : ℕ) (xs : List ℕ) → member p xs ≡ true → In p xs
member-In p [] h = cc
member-In p (x ∷ xs) h = ground (arith, member-In p xs)

In-member : (p : ℕ) (xs : List ℕ) → In p xs → member p xs ≡ true
In-member p [] i = elim i [ ]
In-member p (x ∷ xs) i = ground (arith, In-member p xs)

pub is_live-In :
    (t : Table) (dangling : List ℕ) (p : ℕ) → is_live t dangling p ≡ true → In p (to_list t.l2w)
unfolding is_live
is_live-In t dangling p h = member-In p (to_list t.l2w) (ground arith)

pub In-is_live : (t : Table) (p : ℕ) → In p (to_list t.l2w) → is_live t [] p ≡ true
unfolding is_live
In-is_live t p i = rw (In-member p (to_list t.l2w) i) refl
