-- ===== src/Ring/Pop.antt =====
-- The four pops of src/ring.h against the queue of the slots that a ring holds.
use natporte.Base.{◌+◌, if◌then◌else◌, ◌≡◌, refl, sym, ap, ◌≢◌, ◌↔◌, arith}
use natporte.Base.{Bool, Option, none, some, [], ◌∷◌, ==_iff, ==_ne}
use natporte.Ring.{
  Status, ok, empty, Slot, Handler, Out, slot_at, ring_pop, ring_pop_condblock, ring_s_pop,
  ring_s_pop_condblock,
}
use natporte.Ring.Inv.{IsValid, contents}
use natporte.Ring.Window.{window}
use natporte.Ring.Refine.{Kept, taken, taken-IsValid, contents-taken, relock-IsValid}
use natporte.Ring.Queue
use natporte.Ring.Queue.{Queue}
use native.Mathlib.Decide.{ℕ_discrete}

module _ {A : Type 0} where
  -- What the caller of `ring_pop` gets for the slot `s`.
  abbrev pub handed : Bool → Slot A → Out A
  handed want s = record {
    buffer = s.buffer;
    size = s.size;
    opaque = if want then some s.opaque else none;
  }

  abbrev pub nothing : Out A
  nothing = record { buffer = none; size = 0; opaque = none }

  -- What popping from the queue `q` gives, and what it leaves.
  abbrev pub popped : Bool → Queue A → Status × Out A × Queue A
  popped want q = elim (Queue.pop q) [
    | none ↦ (empty, nothing, [])
    | some (s, rest) ↦ (ok, handed want s, rest)
  ]

  empty-contents : (h : Handler A) → IsValid h → h.push_point ≡ h.pop_point → contents h ≡ []
  empty-contents h v e = ap (window h.rbuf h.ring_size h.pop_point) {y = 0} (ground arith)

  -- On a valid ring, `ring_pop` is `pop` of the queue of its contents: it hands out the oldest
  -- slot, or reports RING_EMPTY with a null buffer; the ring stays valid and neither its size
  -- nor its lock depth changes.
  pub ring_pop_refines :
      (h : Handler A) (want : Bool)
      → IsValid h
      → let (s, out, h') = ring_pop h want in
        ((s, out, contents h') ≡ popped want (contents h)) × Kept h h'
  unfolding ring_pop Queue.pop
  ring_pop_refines h want v = elim (ℕ_discrete h.push_point h.pop_point) [
    | yes e ↦ (
      ground (arith, e, empty-contents h v e),
      rw ((==_iff _ _).1 e) (relock-IsValid h v, refl, omega arith),
    )
    | no ne ↦ (
      ground (arith, ne, contents-taken h v ne),
      rw (==_ne _ _ ne) (taken-IsValid h v ne, refl, omega arith),
    )
  ]

  -- On a valid ring, `ring_pop_condblock` waits exactly when the ring is empty, and else returns
  -- what `ring_pop` returns.
  pub ring_pop_condblock-ring_pop :
      (h : Handler A) (want : Bool)
      → IsValid h
      → ((ring_pop_condblock h want ≡ none) ↔ (contents h ≡ []))
        × (contents h ≢ [] → ring_pop_condblock h want ≡ some (ring_pop h want))
  unfolding ring_pop_condblock ring_pop
  ring_pop_condblock-ring_pop h want v = elim (ℕ_discrete h.push_point h.pop_point) [
    | yes e ↦ ground (arith, e, empty-contents h v e)
    | no ne ↦ ground (arith, ne, contents-taken h v ne)
  ]

  -- On a valid ring, `ring_s_pop_condblock` waits exactly when the ring is empty, and else hands
  -- out the oldest slot and leaves a valid ring of the same size and lock depth that holds the
  -- others.
  pub ring_s_pop_condblock_refines :
      (h : Handler A)
      → IsValid h
      → ((ring_s_pop_condblock h ≡ none) ↔ (contents h ≡ []))
        × (contents h ≢ []
            → (s : Slot A) × (h' : Handler A) × (ring_s_pop_condblock h ≡ some (ok, s, h'))
              × (contents h ≡ s ∷ contents h')
              × Kept h h')
  unfolding ring_s_pop_condblock
  ring_s_pop_condblock_refines h v = elim (ℕ_discrete h.push_point h.pop_point) [
    | yes e ↦ ground (arith, e, empty-contents h v e)
    | no ne ↦ (
      ground (arith, ne, contents-taken h v ne),
      λ left. (
        slot_at h h.pop_point,
        taken h,
        rw (==_ne _ _ ne),
        contents-taken h v ne,
        (taken-IsValid h v ne, refl, omega arith),
      ),
    )
  ]

  -- On a valid ring that holds something, `ring_s_pop` hands out the oldest slot and leaves a
  -- valid ring with the others, but the mutex is then held once more than before.
  pub ring_s_pop-leaks_lock :
      (h : Handler A) (r : Slot A)
      → IsValid h
      → contents h ≢ []
      → let (s, out, h') = ring_s_pop h r in
        (s ≡ ok) × (out ∷ contents h' ≡ contents h) × IsValid h' × (h'.lock ≡ h.lock + 1)
  unfolding ring_s_pop
  ring_s_pop-leaks_lock h r v left =
      let ne : h.push_point ≢ h.pop_point = λ e. left (empty-contents h v e) in
      let t = taken-IsValid h v ne in
      rw (==_ne _ _ ne) (
        refl,
        sym (contents-taken h v ne),
        record {
          storage = t.storage;
          small = t.small;
          pop_in = t.pop_in;
          push_in = t.push_in;
          clean = t.clean;
        },
        omega arith,
      )

  -- What `ring_pop_condblock` gives on a valid ring: nothing when it is empty, and else the oldest
  -- slot and a valid ring with the others.
  abbrev pub Popped : Handler A → Bool → Option (Status × Out A × Handler A) → Type 0
  Popped h want none = contents h ≡ []
  Popped h want (some (status, out, h')) =
      (s : Slot A) × (out ≡ handed want s) × (contents h ≡ s ∷ contents h') × Kept h h'

  pub ring_pop_condblock-Popped :
      (h : Handler A) (want : Bool) → IsValid h → Popped h want (ring_pop_condblock h want)
  unfolding ring_pop_condblock
  ring_pop_condblock-Popped h want v = elim (ℕ_discrete h.push_point h.pop_point) [
    | yes e ↦ rw ((==_iff _ _).1 e) (empty-contents h v e)
    | no ne ↦ rw (==_ne _ _ ne) (
      slot_at h h.pop_point,
      refl,
      contents-taken h v ne,
      (taken-IsValid h v ne, refl, omega arith),
    )
  ]
