-- ===== src/Ring/Inv.antt =====
-- The invariant of a ring and what it holds: the indices are in range and each slot outside the
-- stored window is cleared.
use natporte.Base.{ℕ, zero, suc, ◌+◌, ◌-◌, ◌^◌, ◌≤◌, ◌<◌, ◌==◌, if◌then◌else◌, ◌≡◌, refl, ap}
use natporte.Base.{none, List, [], length, get_or, arith}
use natporte.Ring.{Slot, Handler, null_slot, slot_at, clear_slots, ring_init, default_ring_size}
use natporte.Ring.Window.{steps, window}

length-clear_slots :
    (A : Type 0) (fresh : ℕ → ℕ) (i n : ℕ) → length (clear_slots {A = A} fresh i n) ≡ n
unfolding clear_slots
length-clear_slots A fresh i zero = refl
length-clear_slots A fresh i (suc n) = ap suc (length-clear_slots A fresh (i + 1) n)

cleared :
    (A : Type 0) (fresh : ℕ → ℕ) (i n j : ℕ)
    → let s = get_or (clear_slots {A = A} fresh i n) j null_slot in (s.buffer ≡ none) × (s.size ≡ 0)
unfolding clear_slots
cleared A fresh i zero j = (refl, refl)
cleared A fresh i (suc n) zero = (refl, refl)
cleared A fresh i (suc n) (suc j) = cleared A fresh (i + 1) n j

module _ {A : Type 0} where
  abbrev pub count : Handler A → ℕ
  count h = steps h.ring_size h.pop_point h.push_point

  abbrev pub contents : Handler A → List (Slot A)
  contents h = window h.rbuf h.ring_size h.pop_point (count h)

  abbrev pub capacity : Handler A → ℕ
  capacity h = h.ring_size - 1

  -- The indices fit an `int`, so that `int next` loses nothing.
  pub record IsValid (h : Handler A) : Type 0 where
    pub storage : length h.rbuf ≡ h.ring_size
    pub small : h.ring_size ≤ 2 ^ 31
    pub pop_in : h.pop_point < h.ring_size
    pub push_in : h.push_point < h.ring_size
    pub clean :
        (i : ℕ)
        → i < h.ring_size
        → count h ≤ steps h.ring_size h.pop_point i
        → ((slot_at h i).buffer ≡ none) × ((slot_at h i).size ≡ 0)

  -- `ring_init` gives a valid empty ring of the size asked for, or of the default size for 0,
  -- for a size of at most 2 ^ 31.
  pub ring_init-IsValid :
      (fresh : ℕ → ℕ) (n : ℕ)
      → n ≤ 2 ^ 31
      → let h = ring_init {A = A} fresh n in
        IsValid h × (contents h ≡ []) × (h.ring_size ≡ (if n == 0 then default_ring_size else n))
  unfolding ring_init
  ring_init-IsValid fresh n small = (
    record {
      storage = length-clear_slots A fresh 0 _;
      small = ground arith;
      pop_in = ground arith;
      push_in = ground arith;
      clean = λ i hi far. cleared A fresh 0 _ i;
    },
    refl,
    refl,
  )
