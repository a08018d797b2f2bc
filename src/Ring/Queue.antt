-- ===== src/Ring/Queue.antt =====
-- What a ring promises: a first-in first-out queue of at most `cap` slots.
use natporte.Base.{ℕ, Option, none, some, List, [], ◌∷◌, ◌++◌, ltb, length, if◌then◌else◌}
use natporte.Ring.{Status, ok, over, Slot}

abbrev pub Queue : Type 0 → Type 0
Queue A = List (Slot A)

module _ {A : Type 0} where
  unfoldable pub push : ℕ → Queue A → Slot A → Status × Queue A
  push cap q s = if ltb (length q) cap then (ok, q ++ s ∷ []) else (over, q)

  -- The oldest slot and the rest, or nothing.
  unfoldable pub pop : Queue A → Option (Slot A × Queue A)
  pop [] = none
  pop (s ∷ q) = some (s, q)
