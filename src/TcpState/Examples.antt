-- ===== src/TcpState/Examples.antt =====
-- Packet sequences on the TCP state of an entry.
use natporte.Base.{ℕ, ◌≡◌, ◌≢◌, ◌↔◌, ◌≤◌, true, refl, arith, List, [], ◌∷◌}
use natporte.Codes.{From, from_lan2wan, from_wan2lan, from_unknown}
use natporte.TcpState.{
  syn_sent, synack_recived, established, reset, th_rst, tcp_state_check, closed, unknown,
  entry_step, entry_run, has, has_all,
}
use natporte.TcpState.Step.{tcp_state_check-reset_iff, rank, rank-entry_step}
use natporte.TcpState.Teardown.{HasFin, closed-needs-both_fins, entry_run_orderly}

-- SYN, SYN and ACK, ACK, FIN and ACK, ACK, FIN and ACK, ACK.
abbrev life : List (From × ℕ)
life =
    (from_lan2wan, 0x02)
    ∷ (from_wan2lan, 0x12)
    ∷ (from_lan2wan, 0x10)
    ∷ (from_lan2wan, 0x11)
    ∷ (from_wan2lan, 0x10)
    ∷ (from_wan2lan, 0x11)
    ∷ (from_lan2wan, 0x10)
    ∷ []

life_closes : entry_run syn_sent life ≡ closed
unfolding entry_run entry_step has has_all
life_closes = refl

-- A second SYN from the LAN is a retransmission; a bare ACK from it before the answer is not.
before_answer :
    (entry_run syn_sent ((from_lan2wan, 0x02) ∷ (from_lan2wan, 0x02) ∷ []) ≡ synack_recived)
    × (entry_run syn_sent ((from_lan2wan, 0x02) ∷ (from_lan2wan, 0x10) ∷ []) ≡ unknown)
unfolding entry_run entry_step has has_all
before_answer = (refl, refl)

closed-needs-both_fins_example : HasFin from_lan2wan life × HasFin from_wan2lan life
closed-needs-both_fins_example = closed-needs-both_fins life (omega arith) life_closes

entry_run_orderly_example :
    (entry_run syn_sent (
        (from_lan2wan, 0x02)
        ∷ (from_wan2lan, 0x12)
        ∷ (from_lan2wan, 0x01)
        ∷ (from_wan2lan, 0x11)
        ∷ (from_lan2wan, 0x10)
        ∷ [])
      ≡ closed)
    × (entry_run syn_sent (
          (from_lan2wan, 0x02)
          ∷ (from_wan2lan, 0x12)
          ∷ (from_wan2lan, 0x01)
          ∷ (from_lan2wan, 0x11)
          ∷ (from_wan2lan, 0x10)
          ∷ [])
        ≡ closed)
unfolding has
entry_run_orderly_example =
    entry_run_orderly 0x02 0x12 0x01 0x11 0x10 (omega arith, refl, refl) refl
      (omega arith, refl, refl) refl (omega arith, refl, refl) (omega arith, refl, refl)
      (omega arith, refl, refl)

-- A reset from the WAN on an open connection, and the last acknowledgement of a closing one.
tcp_state_check-reset_iff_example : (tcp_state_check established 0x14 from_wan2lan ≡ reset) ↔ (
    (has 0x14 th_rst ≡ true)
    × (established ≢ closed)
    × (established ≢ reset)
    × (from_wan2lan ≢ from_unknown))
tcp_state_check-reset_iff_example = tcp_state_check-reset_iff established 0x14 from_wan2lan

rank-entry_step_example : rank syn_sent ≤ rank (entry_step syn_sent from_wan2lan 0x12)
rank-entry_step_example = rank-entry_step syn_sent from_wan2lan 0x12
