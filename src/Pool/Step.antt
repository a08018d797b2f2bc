-- ===== src/Pool/Step.antt =====
-- src/addrpool.h: the loop of `addrpool_receiver` over what it reads from the pool.
use natporte.Base.{ℕ, Bool, Option, none, some, List, [], ◌∷◌, ◌++◌}
use natporte.Filter.{Config}
use natporte.System.{Outcome, done, exits, fault, Kernel, System}
use natporte.Pool.{Message}
use natporte.Pool.Lines.{split}
use natporte.Pool.Receiver.{receive}

-- The fields but the last, and the last one, `back()`; there is none in an empty vector.
unfoldable pub lines_and_rest {ℓ} : {A : Type ℓ} → List A → Option (List A × A)
lines_and_rest [] = none
lines_and_rest (x ∷ []) = some ([], x)
lines_and_rest (x ∷ y ∷ r) = elim (lines_and_rest (y ∷ r)) [
  | none ↦ none
  | some (ls, last) ↦ some (x ∷ ls, last)
]

-- What `recv` gives: `none` is a failure, nothing the end of the connection. The complete lines
-- wait to be handled, and the rest stays in the string buffer.
unfoldable pub read_text : Option (List ℕ) → System → Outcome System
unfolding split lines_and_rest
read_text none s = exits
read_text (some []) s = exits
read_text (some (x ∷ xs)) s = elim (lines_and_rest (split (s.text ++ x ∷ xs))) [
  | none ↦ fault
  | some (ls, rest) ↦ done (record s { pending = ls; text = rest })
]

-- One step of the thread: the next line, or the next read. `parse` is the JSON parser with the
-- reading of the members, `none` its exception.
unfoldable pub receiver_step :
    Kernel
    → Config
    → ℕ
    → Bool
    → (List ℕ → Option Message)
    → ℕ
    → Option (List ℕ)
    → System
    → Outcome System
unfolding receive read_text
receiver_step k c now opt_reset parse p received s = elim s.pending [
  | [] ↦ read_text received s
  | line ∷ rest ↦ elim (parse line) [
    | none ↦ exits
    | some m ↦ receive k c now opt_reset p m (record s { pending = rest })
  ]
]
