-- ===== src/Pool/Handled.antt =====
-- src/addrpool.h: no message of the pool spoils the shared state, but for one by which an entry of
-- the table is freed.
use natporte.Base.{ℕ, ◌≡◌, refl, Bool, true}
use natporte.Filter.{Config}
use natporte.Ring.{ring_pop_condblock}
use natporte.Ring.Pop.{ring_pop_condblock-Popped}
use natporte.System.{System, Payload, Outcome, Kernel}
use natporte.System.Inv.{IsSystem}
use natporte.System.Preserves.{Guards, Preserves-Guards}
use natporte.Pool.{
  Message, request_ack, request_discard, release_ack, release_discard, initialize, other,
}
use natporte.Pool.Keeps.{after_pop-holds}
use natporte.Pool.Receiver.{
  take_block, on_request_ack, on_request_discard, on_release_ack, on_release_discard, receive,
}
use natporte.Pool.Answers.{
  FitsEnds, IsFresh, request_ack-Preserves, discard-Guards, free-Guards, release_ack-Preserves,
}

-- The ends that a message carries.
abbrev pub FitsMessage : Message → Type 0
FitsMessage (request_ack e) = FitsEnds e
FitsMessage (release_ack e) = FitsEnds e
FitsMessage m = Unit

module _ (k : Kernel) (c : Config) (now : ℕ) (opt_reset : Bool) (p : ℕ) where
  took :
      (s : System) (next : Payload → ℕ → ℕ → System → Outcome System)
      → IsSystem s
      → ((b : Payload) (size flags : ℕ) (t : System)
          → t.globals ≡ s.globals
          → IsSystem t
          → Guards (next b size flags t))
      → Guards (take_block s next)
  unfolding take_block
  took s next v step =
      after_pop-holds Guards s.h_recv (ring_pop_condblock s.h_recv true)
        (λ g. record s { h_recv = g }) next tt (ring_pop_condblock-Popped s.h_recv true v.recv)
        (λ g w sound. record { table = v.table; send = v.send; recv = w; sound = v.sound })
        (λ b size flags g w.
          step b size flags (record s { h_recv = g }) refl
            (record { table = v.table; send = v.send; recv = w; sound = v.sound }))

  pub receive-Guards :
      (m : Message) (s : System)
      → FitsMessage m
      → IsFresh s.globals.table p
      → IsSystem s
      → Guards (receive k c now opt_reset p m s)
  unfolding receive on_release_discard
  receive-Guards (request_ack e) s f fresh v =
      took s (on_request_ack k c now p e) v (λ b size flags t same w.
        Preserves-Guards _ (request_ack-Preserves k c now p e f b size flags t (rw same fresh) w))
  receive-Guards request_discard s f fresh v =
      took s (on_request_discard k opt_reset) v
        (λ b size flags t same w. discard-Guards k c now opt_reset b size flags t w)
  receive-Guards (release_ack e) s f fresh v =
      took s (on_release_ack k c now e) v (λ b size flags t same w.
        Preserves-Guards _ (release_ack-Preserves k c now e b size flags t w))
  receive-Guards release_discard s f fresh v =
      took s on_release_discard v (λ b size flags t same w. free-Guards k c now b t w)
  receive-Guards (initialize tcp udp) s f fresh v =
      λ sound. record { table = v.table; send = v.send; recv = v.recv; sound = v.sound }
  receive-Guards other s f fresh v = λ sound. v
