-- ===== src/Table/Same.antt =====
-- src/structure.h: what a good table rests on. Times, TCP states and timer flags may change, and
-- so may nodes that are in neither tree.
use natporte.Base.{ℕ, ◌≡◌, refl, sym, subst, ap, ◌∙◌, arith, List, [], ◌∷◌, inl, inr}
use natporte.TcpState.{established}
use natporte.Node.{Node, timer_loop, var_lan, var_wan}
use natporte.RbTree.Shape.{to_list}
use natporte.RbTree.Order.{Sorted, AllAbove, find_key}
use natporte.RbTree.Find.{find-eq-find_key}
use natporte.RbTree.Members.{In}
use natporte.Table.{Table, l2w_key_of, w2l_key_of, find_l2w, find_w2l}
use natporte.Table.Inv.{IsTable, IsEntry}

-- An entry without what changes during its life.
abbrev pub lasting : Node → Node
lasting n = record n { ctime = 0; atime = 0; flags = established; timer_flags = timer_loop }

-- The same trees, and the same entries in them.
abbrev pub Same : Table → Table → Type 0
Same t u =
    (u.l2w ≡ t.l2w)
    × (u.w2l ≡ t.w2l)
    × ((p : ℕ) → In p (to_list t.l2w) → lasting (u.entry p) ≡ lasting (t.entry p))

AllAbove-same :
    (f g : ℕ → ℕ) (k : ℕ) (xs : List ℕ)
    → ((p : ℕ) → In p xs → g p ≡ f p)
    → AllAbove f k xs
    → AllAbove g k xs
AllAbove-same f g k [] same a = tt
AllAbove-same f g k (x ∷ xs) same a =
    (rw (same x (inl refl)) a.0, AllAbove-same f g k xs (λ p i. same p (inr i)) a.1)

Sorted-same :
    (f g : ℕ → ℕ) (xs : List ℕ) → ((p : ℕ) → In p xs → g p ≡ f p) → Sorted f xs → Sorted g xs
Sorted-same f g [] same s = tt
Sorted-same f g (x ∷ xs) same s = (
  rw (same x (inl refl)) (AllAbove-same f g (f x) xs (λ p i. same p (inr i)) s.0),
  Sorted-same f g xs (λ p i. same p (inr i)) s.1,
)

IsEntry-lasting : (n m : Node) → lasting m ≡ lasting n → IsEntry n → IsEntry m
unfolding var_lan var_wan
IsEntry-lasting n m e w =
    let v : IsEntry (lasting n) = record {
      lan_fits = w.lan_fits;
      wan_fits = w.wan_fits;
      l2w_keyed = w.l2w_keyed;
      w2l_keyed = w.w2l_keyed;
    } in
    let u : IsEntry (lasting m) = subst (λ k. IsEntry k) (sym e) v in
    record {
      lan_fits = u.lan_fits;
      wan_fits = u.wan_fits;
      l2w_keyed = u.l2w_keyed;
      w2l_keyed = u.w2l_keyed;
    }

pub IsTable-Same : (t u : Table) → Same t u → IsTable t → IsTable u
IsTable-Same t u s w = record {
  l2w_balanced = rw s.0 w.l2w_balanced;
  w2l_balanced = rw s.1 w.w2l_balanced;
  l2w_sorted = rw s.0 (
      Sorted-same (l2w_key_of t) (l2w_key_of u) (to_list t.l2w)
        (λ p i. ap (λ (n : Node). n.l2w_key) (s.2 p i)) w.l2w_sorted);
  w2l_sorted = rw s.1 (
      Sorted-same (w2l_key_of t) (w2l_key_of u) (to_list t.w2l)
        (λ p i. ap (λ (n : Node). n.w2l_key) (s.2 p (w.in_l2w p i))) w.w2l_sorted);
  entries = λ p i.
      IsEntry-lasting (t.entry p) (u.entry p) (s.2 p (rw s.0 at i)) (w.entries p (rw s.0 at i));
  in_w2l = rw (s.0, s.1) w.in_w2l;
  in_l2w = rw (s.0, s.1) w.in_l2w;
}

find_key-same :
    (f g : ℕ → ℕ) (k : ℕ) (xs : List ℕ)
    → ((p : ℕ) → In p xs → g p ≡ f p)
    → find_key g k xs ≡ find_key f k xs
unfolding find_key
find_key-same f g k [] same = refl
find_key-same f g k (x ∷ xs) same =
    ground (arith, same x (inl refl), find_key-same f g k xs (λ p i. same p (inr i)))

-- The lookups find the same.
pub find_l2w-Same : (t u : Table) (n : Node) → Same t u → IsTable t → find_l2w u n ≡ find_l2w t n
unfolding find_l2w
find_l2w-Same t u n s w =
    find-eq-find_key (l2w_key_of u) n.l2w_key u.l2w (IsTable-Same t u s w).l2w_sorted
    ∙ rw s.0 (
        find_key-same (l2w_key_of t) (l2w_key_of u) n.l2w_key (to_list t.l2w)
          (λ p i. ap (λ (m : Node). m.l2w_key) (s.2 p i)))
    ∙ sym (find-eq-find_key (l2w_key_of t) n.l2w_key t.l2w w.l2w_sorted)

pub find_w2l-Same : (t u : Table) (n : Node) → Same t u → IsTable t → find_w2l u n ≡ find_w2l t n
unfolding find_w2l
find_w2l-Same t u n s w =
    find-eq-find_key (w2l_key_of u) n.w2l_key u.w2l (IsTable-Same t u s w).w2l_sorted
    ∙ rw s.1 (
        find_key-same (w2l_key_of t) (w2l_key_of u) n.w2l_key (to_list t.w2l)
          (λ p i. ap (λ (m : Node). m.w2l_key) (s.2 p (w.in_l2w p i))))
    ∙ sym (find-eq-find_key (w2l_key_of t) n.w2l_key t.w2l w.w2l_sorted)
