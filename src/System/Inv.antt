-- ===== src/System/Inv.antt =====
-- What holds of the shared state between two steps.
use natporte.Base.{◌≡◌, ◌≢◌, ◌⊎◌, refl, List, [], ◌∷◌, inr}
use natporte.Table.Inv.{IsTable}
use natporte.Ring.Inv
use natporte.System.{
  System, Outcome, done, waits, exits, fault, Answer, success, host_down, host_unreach, other_error,
  Datagram, send_packet,
}

-- A good table, none of whose entries is freed, and two valid rings.
pub record IsSystem (s : System) : Type 0 where
  pub table : IsTable s.globals.table
  pub send : Inv.IsValid s.h_send
  pub recv : Inv.IsValid s.h_recv
  pub sound : s.dangling ≡ []

-- Of what the step started with, at most one packet more has been handed to `sendto`.
abbrev pub AtMostOne : List Datagram → List Datagram → Type 0
AtMostOne before after = (after ≡ before) ⊎ ((d : Datagram) × (after ≡ d ∷ before))

-- The step comes to its end, keeps the invariant, and sends at most one packet.
abbrev pub Runs : System → Outcome System → Type 0
Runs s (done t) = IsSystem t × AtMostOne s.sent t.sent
Runs s waits = ⊥
Runs s exits = ⊥
Runs s fault = ⊥

pub send_packet_done :
    (a : Answer) (d : Datagram) (s : System)
    → a ≢ other_error
    → send_packet a d s ≡ done (record s { sent = d ∷ s.sent })
unfolding send_packet
send_packet_done success d s h = refl
send_packet_done host_down d s h = refl
send_packet_done host_unreach d s h = refl
send_packet_done other_error d s h = absurd (h refl)

-- Sending a packet from the state `t`, which the step has reached from `s` without sending.
pub send_packet-Runs :
    (a : Answer) (d : Datagram) (s t : System)
    → a ≢ other_error
    → IsSystem t
    → t.sent ≡ s.sent
    → Runs s (send_packet a d t)
send_packet-Runs a d s t h v e =
    rw (send_packet_done a d t h) (
      record { table = v.table; send = v.send; recv = v.recv; sound = v.sound },
      inr (d, rw e refl),
    )
