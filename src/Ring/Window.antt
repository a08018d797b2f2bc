-- ===== src/Ring/Window.antt =====
-- The slots of a ring from an index on, in ring order, and how writes change them.
use natporte.Base.{ℕ, zero, suc, ◌+◌, ◌-◌, ◌%◌, ◌≤◌, ◌<◌, leb, if◌then◌else◌, ◌≡◌, refl, ap, ap₂}
use natporte.Base.{◌≢◌, List, [], ◌∷◌, ◌++◌, length, get_or, set, get_or-set_ne, arith}
use native.Mathlib.Nat.{mod-eq_of_lt, mod-eq-sub-mod}
use native.Mathlib.Decide.{dec_lt}
use natporte.Ring.{Slot, null_slot}

-- The steps from index `p` forward to index `i`, round a ring of `s` slots.
abbrev pub steps : ℕ → ℕ → ℕ → ℕ
steps s p i = if leb p i then i - p else i + s - p

pub next-lt : (s p : ℕ) → p < s → (p + 1) % s < s
next-lt s p h = omega arith

pub next_cases : (s p : ℕ) → p < s → (p + 1) % s ≡ (if leb s (p + 1) then 0 else p + 1)
next_cases s p h = elim (dec_lt (p + 1) s) [
  | yes q ↦ ground (arith, mod-eq_of_lt q)
  | no q ↦ ground (
    arith,
    mod-eq-sub-mod {n = p + 1} {m = s} (omega arith),
    mod-eq_of_lt {n = p + 1 - s} {m = s} (omega arith),
  )
]

-- Starting one index later saves a step.
pub steps-next : (s p i : ℕ) → p < s → i < s → i ≢ p → steps s ((p + 1) % s) i + 1 ≡ steps s p i
steps-next s p i hp hi ne = ground (arith, next_cases s p)

-- Going on from `i` takes one more step, unless that closes the ring.
pub steps-next_right :
    (s p i : ℕ) → p < s → i < s → (i + 1) % s ≢ p → steps s p ((i + 1) % s) ≡ steps s p i + 1
steps-next_right s p i hp hi ne = ground (arith, next_cases s i)

module _ {A : Type 0} where
  abbrev pub window : List (Slot A) → ℕ → ℕ → ℕ → List (Slot A)
  window buf s p zero = []
  window buf s p (suc n) = get_or buf p null_slot ∷ window buf s ((p + 1) % s) n

  pub length-window : (buf : List (Slot A)) (s p n : ℕ) → length (window buf s p n) ≡ n
  length-window buf s p zero = refl
  length-window buf s p (suc n) = ap suc (length-window buf s ((p + 1) % s) n)

  -- A write at least `n` steps ahead is not seen.
  pub window-set_outside :
      (buf : List (Slot A)) (s p n i : ℕ) (v : Slot A)
      → p < s
      → i < s
      → n ≤ steps s p i
      → window (set buf i v) s p n ≡ window buf s p n
  window-set_outside buf s p zero i v hp hi far = refl
  window-set_outside buf s p (suc n) i v hp hi far =
      ap₂ ◌∷◌ (get_or-set_ne buf i p v null_slot (ground arith)) (
        window-set_outside buf s ((p + 1) % s) n i v (next-lt s p hp) hi
          (ground (arith, steps-next s p i hp hi)))

  -- The slot `n` steps ahead is the next one of the window.
  pub window-suc :
      (buf : List (Slot A)) (s p n i : ℕ)
      → p < s
      → i < s
      → n ≡ steps s p i
      → window buf s p (suc n) ≡ window buf s p n ++ get_or buf i null_slot ∷ []
  window-suc buf s p zero i hp hi e =
      ap (λ k. get_or buf k null_slot ∷ []) {x = p} {y = i} (ground arith)
  window-suc buf s p (suc n) i hp hi e = ap (get_or buf p null_slot ∷◌) (
      window-suc buf s ((p + 1) % s) n i (next-lt s p hp) hi
        (ground (arith, steps-next s p i hp hi)))
