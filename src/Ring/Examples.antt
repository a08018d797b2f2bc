-- ===== src/Ring/Examples.antt =====
-- Runs of the ring on small inputs, and its theorems at inputs that meet their hypotheses.
use natporte.Base.{ℕ, zero, suc, ◌+◌, ◌≤◌, ◌<◌, ◌≡◌, refl, ◌≢◌, true, none, some}
use natporte.Base.{[], ◌∷◌, arith}
use natporte.Ring.{ok, over, Slot, Handler, slot_at, ring_init, ring_push, ring_pop, ring_s_pop}
use natporte.Ring.Inv.{IsValid, contents}
use natporte.Ring.Refine.{Kept, message, ring_push_refines}
use natporte.Ring.Pop.{popped, ring_pop_refines, ring_s_pop-leaks_lock}
use natporte.Ring.Queue
use natporte.Ring.Window.{steps}

-- Blocks are numbers here, and copying keeps the number.
abbrev keep : ℕ → ℕ → ℕ
keep b n = b

abbrev slot : ℕ → ℕ → Slot ℕ
slot b n = record { buffer = some b; size = n; opaque = b + 1 }

abbrev blank : Slot ℕ
blank = record { buffer = none; size = 0; opaque = 0 }

-- Two slots of three, round the end.
abbrev wrapped : Handler ℕ
wrapped = record {
  lock = 0;
  signals = 5;
  pop_point = 2;
  push_point = 1;
  ring_size = 3;
  rbuf = slot 8 40 ∷ blank ∷ slot 7 60 ∷ [];
}

wrapped-contents : contents wrapped ≡ slot 7 60 ∷ slot 8 40 ∷ []
wrapped-contents = refl

wrapped-IsValid : IsValid wrapped
wrapped-IsValid = record {
  storage = refl;
  small = omega arith;
  pop_in = omega arith;
  push_in = omega arith;
  clean = wrapped_clean;
}
  where
    wrapped_clean :
        (i : ℕ)
        → i < 3
        → 2 ≤ steps 3 2 i
        → ((slot_at wrapped i).buffer ≡ none) × ((slot_at wrapped i).size ≡ 0)
    wrapped_clean zero h far = absurd (omega arith)
    wrapped_clean (suc zero) h far = (refl, refl)
    wrapped_clean (suc (suc i)) h far = ground (arith, far)

-- The queue of 3 slots holds two, so the third push is refused.
push_until_over :
    let (s, h) = ring_push keep (ring_init {A = ℕ} (λ i. i) 3) (some 4) 20 1 in
    let (t, k) = ring_push keep h none 0 2 in
    let (u, m) = ring_push keep k (some 5) 20 3 in (s ≡ ok) × (t ≡ ok) × (u ≡ over)
unfolding ring_push ring_init
push_until_over = (refl, refl, refl)

ring_push_refines_example :
    let (s, h) = ring_push keep wrapped (some 9) 20 0 in
    ((s, contents h) ≡ Queue.push 2 (slot 7 60 ∷ slot 8 40 ∷ []) (message keep (some 9) 20 0))
    × Kept wrapped h
ring_push_refines_example = ring_push_refines keep wrapped (some 9) 20 0 wrapped-IsValid

ring_pop_refines_example :
    let (s, out, h) = ring_pop wrapped true in
    ((s, out, contents h) ≡ popped true (slot 7 60 ∷ slot 8 40 ∷ [])) × Kept wrapped h
ring_pop_refines_example = ring_pop_refines wrapped true wrapped-IsValid

wrapped_left : contents wrapped ≢ []
wrapped_left e = cc e

ring_s_pop-leaks_lock_example :
    let (s, out, h) = ring_s_pop wrapped blank in
    (s ≡ ok) × (out ∷ contents h ≡ contents wrapped) × IsValid h × (h.lock ≡ 0 + 1)
ring_s_pop-leaks_lock_example = ring_s_pop-leaks_lock wrapped blank wrapped-IsValid wrapped_left
