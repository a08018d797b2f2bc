-- ===== src/Ring/Refine.antt =====
-- A valid ring behaves as the bounded queue of the slots that it holds.
use natporte.Base.{
  ℕ, suc, ◌+◌, ◌%◌, ◌≤◌, ◌==◌, if◌then◌else◌, ◌≡◌, refl, sym, ap, ap₂, ◌∙◌, ◌≢◌, ◌↔◌,
}
use natporte.Base.{Option, none, some, [], ◌∷◌, ◌++◌, length, set, arith, ==_self, ==_ne}
use natporte.Base.{length-set, get_or-set_self, get_or-set_ne}
use natporte.Ring.{
  Status, ok, over, Slot, Handler, null_slot, slot_at, put_slot, take_slot, mutex_lock,
  mutex_unlock, cond_signal, filled, next_point, ring_push, ring_s_push,
}
use natporte.Ring.Window.{
  window, steps-next_right, next-lt, next_cases, steps-next, window-set_outside, window-suc,
  length-window,
}
use natporte.Ring.Inv.{IsValid, count, contents, capacity}
use natporte.Ring.Queue
use native.Mathlib.Decide.{ℕ_discrete}

module _ {A : Type 0} where
  -- Writing the free slot at `push_point` and moving on appends it to the contents.
  abbrev stored : Handler A → Slot A → Handler A
  stored h s = mutex_unlock (cond_signal (put_slot (mutex_lock h) s))

  stored-IsValid :
      (h : Handler A) (s : Slot A)
      → IsValid h
      → next_point h h.push_point ≢ h.pop_point
      → IsValid (stored h s)
  stored-IsValid h s v free = record {
    storage = length-set h.rbuf h.push_point s ∙ v.storage;
    small = v.small;
    pop_in = v.pop_in;
    push_in = next-lt h.ring_size h.push_point v.push_in;
    clean = λ i hi far. ground (
      arith,
      v.clean i,
      steps-next_right h.ring_size h.pop_point h.push_point,
      get_or-set_ne h.rbuf h.push_point i s null_slot,
    );
  }

  contents-stored :
      (h : Handler A) (s : Slot A)
      → IsValid h
      → next_point h h.push_point ≢ h.pop_point
      → contents (stored h s) ≡ contents h ++ s ∷ []
  contents-stored h s v free =
      ap (window (set rbuf push_point s) ring_size pop_point) {y = suc (count h)}
        (omega (arith, steps-next_right ring_size pop_point push_point v.pop_in v.push_in free))
      ∙ window-suc (set rbuf push_point s) ring_size pop_point (count h) push_point v.pop_in
          v.push_in refl
      ∙ ap₂ (λ q t. q ++ t ∷ [])
          (window-set_outside rbuf ring_size pop_point (count h) push_point s v.pop_in v.push_in
            (omega arith))
          (get_or-set_self rbuf push_point s null_slot (omega arith))
    where
      open h use {rbuf, pop_point, push_point, ring_size}

  -- Clearing the oldest slot and moving on drops it from the contents.
  abbrev pub taken : Handler A → Handler A
  taken h = mutex_unlock (take_slot (mutex_lock h))

  pub taken-IsValid : (h : Handler A) → IsValid h → h.push_point ≢ h.pop_point → IsValid (taken h)
  taken-IsValid h v some_left = record {
    storage = length-set h.rbuf h.pop_point null_slot ∙ v.storage;
    small = v.small;
    pop_in = next-lt h.ring_size h.pop_point v.pop_in;
    push_in = v.push_in;
    clean = λ i hi far. elim (ℕ_discrete i h.pop_point) [
      | yes e ↦
          rw (e, get_or-set_self h.rbuf h.pop_point null_slot null_slot (omega arith)) (refl, refl)
      | no ne ↦ ground (
        arith,
        v.clean i,
        steps-next h.ring_size h.pop_point h.push_point,
        steps-next h.ring_size h.pop_point i,
        get_or-set_ne h.rbuf h.pop_point i null_slot null_slot,
      )
    ];
  }

  pub contents-taken :
      (h : Handler A)
      → IsValid h
      → h.push_point ≢ h.pop_point
      → contents h ≡ slot_at h h.pop_point ∷ contents (taken h)
  contents-taken h v some_left =
      ap (window rbuf ring_size pop_point) {y = suc (count (taken h))}
        (omega (arith, steps-next ring_size pop_point push_point v.pop_in v.push_in some_left))
      ∙ ap (slot_at h pop_point ∷◌) (
          sym (
            window-set_outside rbuf ring_size ((pop_point + 1) % ring_size) (count (taken h))
              pop_point null_slot (next-lt ring_size pop_point v.pop_in) v.pop_in
              (ground (arith, next_cases ring_size pop_point))))
    where
      open h use {rbuf, pop_point, push_point, ring_size}

  pub length-contents : (h : Handler A) → length (contents h) ≡ count h
  length-contents h = length-window h.rbuf h.ring_size h.pop_point (count h)

  count-le : (h : Handler A) → IsValid h → count h ≤ capacity h
  count-le h v = ground arith

  -- A ring is full exactly when the index after `push_point` is `pop_point`.
  full_iff :
      (h : Handler A)
      → IsValid h
      → (next_point h h.push_point ≡ h.pop_point) ↔ (count h ≡ capacity h)
  full_iff h v = ground (arith, next_cases h.ring_size h.push_point)

  -- What `ring_push` queues: a null or an empty argument is queued as a null block of size 0.
  abbrev pub message : (A → ℕ → A) → Option A → ℕ → ℕ → Slot A
  message copy b n o = filled copy null_slot b n o

  -- After an operation: still valid, of the same size, and the mutex held as often as before.
  abbrev pub Kept : Handler A → Handler A → Type 0
  Kept h h' = IsValid h' × (h'.ring_size ≡ h.ring_size) × (h'.lock ≡ h.lock)

  filled-message :
      (copy : A → ℕ → A) (h : Handler A) (b : Option A) (n o : ℕ)
      → IsValid h
      → filled copy (slot_at h h.push_point) b n o ≡ message copy b n o
  filled-message copy h none n o v = ground (arith, v.clean h.push_point)
  filled-message copy h (some b) n o v = ground (arith, v.clean h.push_point)

  pub relock-IsValid : (h : Handler A) → IsValid h → IsValid (mutex_unlock (mutex_lock h))
  relock-IsValid h v = record {
    storage = v.storage;
    small = v.small;
    pop_in = v.pop_in;
    push_in = v.push_in;
    clean = v.clean;
  }

  -- What both pushes do once the size check, which never fails, is passed.
  enqueue : Handler A → Slot A → Status × Handler A
  enqueue h s =
      if next_point h h.push_point == h.pop_point
      then (over, mutex_unlock (mutex_lock h))
      else (ok, stored h s)

  enqueue_refines :
      (h : Handler A) (s : Slot A)
      → IsValid h
      → let (t, h') = enqueue h s in
        ((t, contents h') ≡ Queue.push (capacity h) (contents h) s) × Kept h h'
  unfolding enqueue Queue.push
  enqueue_refines h s v = elim (ℕ_discrete (next_point h h.push_point) h.pop_point) [
    | yes e ↦ (
      ground (arith, e, length-contents h, (full_iff h v).0),
      rw (e, ==_self) (relock-IsValid h v, refl, omega arith),
    )
    | no ne ↦ (
      ground (arith, ne, length-contents h, count-le h v, (full_iff h v).1, contents-stored h s v),
      rw (==_ne _ _ ne) (stored-IsValid h s v ne, refl, omega arith),
    )
  ]

  -- On a valid ring, `ring_push` does what `push` does on the queue of its contents, the copied
  -- message at the end or RING_OVER when all slots but one are in use, whatever the message's
  -- size; the ring stays valid and neither its size nor its lock depth changes.
  pub ring_push_refines :
      (copy : A → ℕ → A) (h : Handler A) (b : Option A) (n o : ℕ)
      → IsValid h
      → let (s, h') = ring_push copy h b n o in
        ((s, contents h') ≡ Queue.push (capacity h) (contents h) (message copy b n o)) × Kept h h'
  ring_push_refines copy h b n o v = rw entered (enqueue_refines h (message copy b n o) v)
    where
      entered : ring_push copy h b n o ≡ enqueue h (message copy b n o)
      entered = unfold ring_push enqueue in ground (arith, filled-message copy h b n o v)

  -- On a valid ring, `ring_s_push` does what `push` does on the queue of its contents, with the
  -- slot as it is; the ring stays valid and neither its size nor its lock depth changes.
  pub ring_s_push_refines :
      (h : Handler A) (r : Slot A)
      → IsValid h
      → let (s, h') = ring_s_push h r in
        ((s, contents h') ≡ Queue.push (capacity h) (contents h) r) × Kept h h'
  ring_s_push_refines h r v = rw entered (enqueue_refines h r v)
    where
      entered : ring_s_push h r ≡ enqueue h r
      entered = unfold ring_s_push enqueue in ground arith
