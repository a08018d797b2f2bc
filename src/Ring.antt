-- ===== src/Ring.antt =====
-- src/ring.h: the ring buffers between the divert thread and the address pool threads.
-- `A` is what a block of memory holds, and `copy` is `malloc(size)` followed by `memcpy`.
-- The mutex is recursive: `lock` counts how often the calling thread holds it.
pub mod Queue
pub mod Window
pub mod Inv
pub mod Refine
pub mod Pop
mod Examples
use natporte.Base.{ℕ, zero, suc, ◌+◌, ◌-◌, ◌%◌, ltb, leb, ◌==◌, if◌then◌else◌, not}
use natporte.Base.{Bool, true, false, ◌&&◌, Option, none, some, List, [], ◌∷◌, set, get_or}

abbrev pub default_ring_size : ℕ
default_ring_size = 10

abbrev pub default_buf_size : ℕ
default_buf_size = 65535

-- RING_OK, RING_ERR, RING_OVER, RING_EMPTY.
pub data Status : Type 0 where
  ok err over empty : Status

-- `struct ring_buffer`; `none` is a null pointer.
pub record Slot (A : Type 0) : Type 0 where
  pub buffer : Option A
  pub size : ℕ
  pub opaque : ℕ

-- `struct ring_handler`; `signals` counts the calls of `pthread_cond_signal`.
pub record Handler (A : Type 0) : Type 0 where
  pub lock : ℕ
  pub signals : ℕ
  pub pop_point : ℕ
  pub push_point : ℕ
  pub ring_size : ℕ
  pub rbuf : List (Slot A)

-- What the out-parameters of a pop hold afterwards; `none` in `opaque` is "not written".
pub record Out (A : Type 0) : Type 0 where
  pub buffer : Option A
  pub size : ℕ
  pub opaque : Option ℕ

abbrev pub is_null : {A : Type 0} → Option A → Bool
is_null none = true
is_null (some a) = false

abbrev pub null_slot : {A : Type 0} → Slot A
null_slot = record { buffer = none; size = 0; opaque = 0 }

module _ {A : Type 0} where
  abbrev pub mutex_lock : Handler A → Handler A
  mutex_lock h = record h { lock = h.lock + 1 }

  abbrev pub mutex_unlock : Handler A → Handler A
  mutex_unlock h = record h { lock = h.lock - 1 }

  abbrev pub cond_signal : Handler A → Handler A
  cond_signal h = record h { signals = h.signals + 1 }

  -- The loop that clears the slots; `opaque` stays what the fresh memory held.
  unfoldable pub clear_slots : (ℕ → ℕ) → ℕ → ℕ → List (Slot A)
  clear_slots fresh i zero = []
  clear_slots fresh i (suc n) =
      record { buffer = none; size = 0; opaque = fresh i } ∷ clear_slots fresh (i + 1) n

  unfoldable pub ring_init : (ℕ → ℕ) → ℕ → Handler A
  unfolding clear_slots
  ring_init fresh ring_size =
      let n = if ring_size == 0 then default_ring_size else ring_size in
      record {
        lock = 0;
        signals = 0;
        pop_point = 0;
        push_point = 0;
        ring_size = n;
        rbuf = clear_slots fresh 0 n;
      }

  -- The index after `i`, round the ring.
  abbrev pub next_point : Handler A → ℕ → ℕ
  next_point h i = (i + 1) % h.ring_size

  abbrev pub slot_at : Handler A → ℕ → Slot A
  slot_at h i = get_or h.rbuf i null_slot

  -- What `ring_push` leaves in the slot: a null or empty argument keeps the old block.
  abbrev pub filled : (A → ℕ → A) → Slot A → Option A → ℕ → ℕ → Slot A
  filled copy old none size opaque = record old { opaque = opaque }
  filled copy old (some b) size opaque =
      if size == 0
      then record old { opaque = opaque }
      else record { buffer = some (copy b size); size = size; opaque = opaque }

  -- The slot at `push_point` is written, and the index moves on.
  abbrev pub put_slot : Handler A → Slot A → Handler A
  put_slot h s = record h {
    rbuf = set h.rbuf h.push_point s;
    push_point = next_point h h.push_point;
  }

  unfoldable pub ring_push : (A → ℕ → A) → Handler A → Option A → ℕ → ℕ → Status × Handler A
  ring_push copy h buffer size opaque =
      if ltb default_buf_size size && leb size 0
      then (err, h)
      else let h = mutex_lock h in
        let next = next_point h h.push_point in
        if next == h.pop_point
        then (over, mutex_unlock h)
        else let new = filled copy (slot_at h h.push_point) buffer size opaque in
          (ok, mutex_unlock (cond_signal (put_slot h new)))

  unfoldable pub ring_s_push : Handler A → Slot A → Status × Handler A
  ring_s_push h r =
      if ltb default_buf_size r.size && leb r.size 0
      then (err, h)
      else let h = mutex_lock h in
        let next = next_point h h.push_point in
        if next == h.pop_point
        then (over, mutex_unlock h)
        else (ok, mutex_unlock (cond_signal (put_slot h r)))

  -- The slot at `pop_point` is handed out and cleared.
  abbrev pub take_slot : Handler A → Handler A
  take_slot h = record h {
    rbuf = set h.rbuf h.pop_point null_slot;
    pop_point = next_point h h.pop_point;
  }

  -- `want` says that the argument `opaque` is not null.
  unfoldable pub ring_pop : Handler A → Bool → Status × Out A × Handler A
  ring_pop h want =
      let h = mutex_lock h in
      if h.push_point == h.pop_point
      then (empty, record { buffer = none; size = 0; opaque = none }, mutex_unlock h)
      else let s = slot_at h h.pop_point in
        let out : Out A = record {
          buffer = s.buffer;
          size = s.size;
          opaque = if want then some s.opaque else none;
        } in
        (ok, out, mutex_unlock (take_slot h))

  -- `none`: the caller waits on the condition variable, the mutex released by the wait.
  unfoldable pub ring_pop_condblock : Handler A → Bool → Option (Status × Out A × Handler A)
  ring_pop_condblock h want =
      let h = mutex_lock h in
      if h.push_point == h.pop_point
      then none
      else let s = slot_at h h.pop_point in
        let out : Out A = record {
          buffer = s.buffer;
          size = s.size;
          opaque = if want then some s.opaque else none;
        } in
        some (ok, out, mutex_unlock (take_slot h))

  -- The argument `r` is overwritten; on the empty ring it keeps its `opaque`.
  unfoldable pub ring_s_pop : Handler A → Slot A → Status × Slot A × Handler A
  ring_s_pop h r =
      let h = mutex_lock h in
      if h.push_point == h.pop_point
      then (empty, record r { buffer = none; size = 0 }, mutex_unlock h)
      else let h = mutex_lock h in (ok, slot_at h h.pop_point, mutex_unlock (take_slot h))

  unfoldable pub ring_s_pop_condblock : Handler A → Option (Status × Slot A × Handler A)
  ring_s_pop_condblock h =
      let h = mutex_lock h in
      if h.push_point == h.pop_point
      then none
      else some (ok, slot_at h h.pop_point, mutex_unlock (take_slot h))
