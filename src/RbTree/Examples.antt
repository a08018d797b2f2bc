-- ===== src/RbTree/Examples.antt =====
-- A small tree of numbers, each its own key.
use natporte.Base.{ℕ, ◌≡◌, refl, some}
use natporte.RbTree.{
  black, red, Tree, leaf, node, find, nfind, minmax, insert, inserted, insert_color,
}
use natporte.RbTree.Shape.{to_list}
use natporte.RbTree.Balance.{IsRedBlack}
use natporte.RbTree.Order.{Sorted, find_key}
use natporte.RbTree.Depth.{find_within, find_within-find}
use natporte.RbTree.Remove.{remove}
use natporte.RbTree.Locate.{Lost, remove-Lost}
use natporte.RbTree.Insert.{Inserts, insert-Inserts, find-insert}
use natporte.Base.{arith, true, false, length, ◌+◌, ◌*◌, ◌^◌, ◌≤◌}

abbrev self : ℕ → ℕ
self x = x

-- 10 over 5 and 20, both red.
abbrev three : Tree ℕ
three = node black (node red leaf 5 leaf) 10 (node red leaf 20 leaf)

-- After 7: the uncle is red, so the colours change.
abbrev four : Tree ℕ
four = node black (node black leaf 5 (node red leaf 7 leaf)) 10 (node black leaf 20 leaf)

-- After 6: the uncle is black, so two rotations.
abbrev five : Tree ℕ
five =
    node black (node black (node red leaf 5 leaf) 6 (node red leaf 7 leaf)) 10
      (node black leaf 20 leaf)

three-IsRedBlack : IsRedBlack three
three-IsRedBlack = record {
  root = refl;
  no_red_red = ((refl, refl, tt, tt), (refl, refl, tt, tt));
  even = (refl, (refl, tt, tt), (refl, tt, tt));
}

four-IsRedBlack : IsRedBlack four
four-IsRedBlack = record {
  root = refl;
  no_red_red = ((tt, (refl, refl, tt, tt)), (tt, tt));
  even = (refl, (refl, tt, (refl, tt, tt)), (refl, tt, tt));
}

three-Sorted : Sorted self (to_list three)
three-Sorted = omega arith

four-Sorted : Sorted self (to_list four)
four-Sorted = omega arith

recoloured : insert self 7 three ≡ inserted four
unfolding insert insert_color
recoloured = refl

rotated : insert self 6 four ≡ inserted five
unfolding insert insert_color
rotated = refl

nfind_between : nfind self 8 five ≡ some 10
unfolding nfind
nfind_between = refl

minmax_ends : (minmax five true ≡ some 5) × (minmax five false ≡ some 20)
unfolding minmax
minmax_ends = (refl, refl)

insert-Inserts_example : Inserts self 6 four (insert self 6 four)
insert-Inserts_example = insert-Inserts self 6 four four-IsRedBlack four-Sorted

find-insert_example : find self 7 five ≡ find self 7 four
find-insert_example = find-insert self 7 6 four four-IsRedBlack four-Sorted rotated

-- 20 is black: its sibling has a red child, so the tree rotates.
abbrev without_20 : Tree ℕ
without_20 = node black (node black leaf 5 leaf) 7 (node black leaf 10 leaf)

rebalanced : remove self 20 four ≡ some without_20
unfolding remove
rebalanced = refl

-- 10 has two children: its successor 20 takes its place.
replaced_root :
    remove self 10 four ≡ some (node black (node black leaf 5 leaf) 7 (node black leaf 20 leaf))
unfolding remove
replaced_root = refl

remove-Lost_example : (u : Tree ℕ) × (remove self 20 four ≡ some u) × Lost self 20 four u
unfolding find_key
remove-Lost_example = remove-Lost self 20 four 20 four-IsRedBlack four-Sorted refl

find_within-find_example :
    (h : ℕ) × (2 ^ h ≤ length (to_list four) + 1)
    × (find_within self (2 * h) 7 four ≡ some (find self 7 four))
find_within-find_example = find_within-find self 7 four four-IsRedBlack
