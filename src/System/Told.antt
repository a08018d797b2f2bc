-- ===== src/System/Told.antt =====
-- What stands in the two rings, against what has been told to the address pool.
use natporte.Base.{
  ℕ, ◌≡◌, ◌⊎◌, inl, inr, sym, subst, ap, ◌∙◌, true, false, bit_or, Bytes, Option, none, some, List,
  [], ◌∷◌, ◌++◌, ltb, Bool-cases, length,
}
use mathlib.Core.List.{reverse_aux, reverse_aux-append}
use natporte.Node.{mk_node}
use natporte.Ring.{Slot, Status}
use natporte.Ring.Inv.{contents, IsValid}
use natporte.Ring.Queue
use natporte.System.{
  ap_send_req, ap_send_rel, ap_timeout, ap_rel_l2w, ap_rel_w2l, ap_addrpool, Payload, packet, entry,
  Notice, request, release, is_ok, System, Outcome, done, waits, exits, fault,
}
use natporte.System.Frame.{Queues, queues, Frames}
use natporte.Pool.{zero_node, ends_of}

-- The message was sent for the block: a request for its packet, with the packet's ends, or a
-- release of an entry that has timed out, or of the entry of a last packet.
abbrev pub Matches : Notice → Slot Payload → Type 0
Matches (request now e) r =
    (b : Bytes) × (r.buffer ≡ some (packet b))
    × (r.opaque ≡ 0)
    × (e ≡ ends_of (mk_node b r.size zero_node).1)
Matches (release now e) r =
    ((p : ℕ) × (r.buffer ≡ some (entry p)) × (r.opaque ≡ ap_timeout))
    ⊎ ((b : Bytes) × (r.buffer ≡ some (packet b))
        × ((r.opaque ≡ ap_rel_l2w) ⊎ (r.opaque ≡ ap_rel_w2l)))

-- One message for each block, in the same order.
abbrev pub Pairs : List Notice → List (Slot Payload) → Type 0
Pairs [] [] = Unit
Pairs [] (r ∷ rs) = ⊥
Pairs (m ∷ ms) [] = ⊥
Pairs (m ∷ ms) (r ∷ rs) = Matches m r × Pairs ms rs

-- The last messages, of which `notices` has the newest first, are those for the blocks.
abbrev pub Told : List (Slot Payload) → List Notice → Type 0
Told rs notices =
    (ms : List Notice) × (old : List Notice) × (notices ≡ reverse_aux ms old) × Pairs ms rs

Pairs-append :
    (ms : List Notice) (rs : List (Slot Payload)) (m : Notice) (r : Slot Payload)
    → Pairs ms rs
    → Matches m r
    → Pairs (ms ++ m ∷ []) (rs ++ r ∷ [])
Pairs-append [] [] m r p h = (h, tt)
Pairs-append [] (x ∷ rs) m r p h = absurd p
Pairs-append (n ∷ ms) [] m r p h = absurd p
Pairs-append (n ∷ ms) (x ∷ rs) m r p h = (p.0, Pairs-append ms rs m r p.1 h)

-- A block goes in at the end when the pool is told of it, and the first one comes out.
pub told_push :
    (rs : List (Slot Payload)) (notices : List Notice) (m : Notice) (r : Slot Payload)
    → Told rs notices
    → Matches m r
    → Told (rs ++ r ∷ []) (m ∷ notices)
told_push rs notices m r (ms, old, e, p) h = (
  ms ++ m ∷ [],
  old,
  ap (m ∷◌) e ∙ sym (reverse_aux-append ms (m ∷ []) old),
  Pairs-append ms rs m r p h,
)

pub told_pop :
    (r : Slot Payload) (rs : List (Slot Payload)) (notices : List Notice)
    → Told (r ∷ rs) notices
    → Told rs notices
told_pop r rs notices ([], old, e, p) = absurd p
told_pop r rs notices (m ∷ ms, old, e, p) = (ms, m ∷ old, e, p.1)

-- The flags that the threads queue blocks with for the sender.
abbrev pub Flagged : ℕ → Type 0
Flagged o =
    (o ≡ bit_or ap_send_req ap_addrpool)
    ⊎ (o ≡ bit_or ap_send_rel ap_addrpool)
    ⊎ (o ≡ bit_or ap_timeout ap_addrpool)

abbrev pub AllFlagged : List (Slot Payload) → Type 0
AllFlagged [] = Unit
AllFlagged (r ∷ rs) = Flagged r.opaque × AllFlagged rs

abbrev pub HeldFlagged : Option (Slot Payload) → Type 0
HeldFlagged none = Unit
HeldFlagged (some r) = Flagged r.opaque

-- The block that the sender holds is the one that its text is about.
abbrev pub Held : Option (Slot Payload × ℕ) → Option Notice → Type 0
Held none mesg = Unit
Held (some (r, flags)) mesg = Flagged flags × (m : Notice) × (mesg ≡ some m) × Matches m r

pub record IsTold (q : Queues) : Type 0 where
  pub send : IsValid q.h_send
  pub recv : IsValid q.h_recv
  pub flagged : AllFlagged (contents q.h_send)
  pub divert : HeldFlagged q.divert
  pub timer : HeldFlagged q.timer
  pub told : Told (contents q.h_recv) q.notices
  pub held : Held q.sender q.mesg

AllFlagged-append :
    (rs : List (Slot Payload)) (r : Slot Payload)
    → AllFlagged rs
    → Flagged r.opaque
    → AllFlagged (rs ++ r ∷ [])
AllFlagged-append [] r a h = (h, tt)
AllFlagged-append (x ∷ rs) r a h = (a.0, AllFlagged-append rs r a.1 h)

-- What a push leaves, by its status.
pub pushed_ok :
    (cap : ℕ) (rs : List (Slot Payload)) (r : Slot Payload) (s : Status)
    (after : List (Slot Payload))
    → (s, after) ≡ Queue.push cap rs r
    → is_ok s ≡ true
    → after ≡ rs ++ r ∷ []
unfolding Queue.push is_ok
pushed_ok cap rs r s after e k = elim (Bool-cases (ltb (length rs) cap)) [
  | inl room ↦ ap (λ (p : Status × List (Slot Payload)). p.1) (rw room at e)
  | inr full ↦
      let f : is_ok s ≡ false =
        ap (λ (p : Status × List (Slot Payload)). is_ok p.0) (rw full at e) in
      cc
]

pub pushed_over :
    (cap : ℕ) (rs : List (Slot Payload)) (r : Slot Payload) (s : Status)
    (after : List (Slot Payload))
    → (s, after) ≡ Queue.push cap rs r
    → is_ok s ≡ false
    → after ≡ rs
unfolding Queue.push is_ok
pushed_over cap rs r s after e k = elim (Bool-cases (ltb (length rs) cap)) [
  | inl room ↦
      let f : is_ok s ≡ true =
        ap (λ (p : Status × List (Slot Payload)). is_ok p.0) (rw room at e) in
      cc
  | inr full ↦ ap (λ (p : Status × List (Slot Payload)). p.1) (rw full at e)
]

-- Either way the flags stay.
pub pushed-AllFlagged :
    (cap : ℕ) (rs : List (Slot Payload)) (r : Slot Payload) (s : Status)
    (after : List (Slot Payload))
    → (s, after) ≡ Queue.push cap rs r
    → AllFlagged rs
    → Flagged r.opaque
    → AllFlagged after
pushed-AllFlagged cap rs r s after e a h = elim (Bool-cases (is_ok s)) [
  | inl k ↦ subst AllFlagged (sym (pushed_ok cap rs r s after e k)) (AllFlagged-append rs r a h)
  | inr k ↦ subst AllFlagged (sym (pushed_over cap rs r s after e k)) a
]

-- When the step comes to its end, the rings are as they should be.
abbrev pub Tells : Outcome System → Type 0
Tells (done t) = IsTold (queues t)
Tells waits = Unit
Tells exits = Unit
Tells fault = Unit

pub Frames-Tells : (q : Queues) (m : Outcome System) → Frames q m → IsTold q → Tells m
Frames-Tells q (done t) same v = subst IsTold (sym same) v
Frames-Tells q waits same v = tt
Frames-Tells q exits same v = tt
Frames-Tells q fault same v = tt
