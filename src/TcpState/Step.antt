-- ===== src/TcpState/Step.antt =====
-- One call of `tcp_state_check`.
use natporte.Base.{ℕ, ◌≤◌, ◌≡◌, arith, true, false, ◌≢◌, ◌↔◌, ◌⊎◌}
use natporte.Codes.{From, from_lan2wan, from_wan2lan, from_unknown}
use natporte.TcpState.{
  State, established, syn_sent, synack_recived, fin_wait_l2w, fin_wait_w2l, finack_wait_l2w,
  finack_wait_w2l, closing_l2w, closing_w2l, closed, reset, unknown, th_rst, th_ack, has,
  tcp_state_check, entry_step,
}

-- `tcp_state_check` returns S_TF_RESET exactly when the packet comes from the LAN or the WAN
-- with its reset flag set and the state is neither S_TF_CLOSED nor S_TF_RESET.
pub tcp_state_check-reset_iff :
    (t : State) (p : ℕ) (f : From)
    → (tcp_state_check t p f ≡ reset)
      ↔ ((has p th_rst ≡ true) × (t ≢ closed) × (t ≢ reset) × (f ≢ from_unknown))
unfolding tcp_state_check
tcp_state_check-reset_iff t p f = ground arith

-- `tcp_state_check` returns S_TF_CLOSED exactly on an acknowledgement without a reset flag that
-- comes from the WAN in S_TF_CLOSING_W2L or from the LAN in S_TF_CLOSING_L2W.
pub tcp_state_check-closed_iff :
    (t : State) (p : ℕ) (f : From)
    → (tcp_state_check t p f ≡ closed) ↔ (
        (has p th_rst ≡ false)
        × (has p th_ack ≡ true)
        × (((t ≡ closing_w2l) × (f ≡ from_wan2lan)) ⊎ ((t ≡ closing_l2w) × (f ≡ from_lan2wan))))
unfolding tcp_state_check
tcp_state_check-closed_iff t p f = ground arith

-- How far a connection has come.
abbrev pub rank : State → ℕ
rank syn_sent = 0
rank synack_recived = 1
rank established = 2
rank fin_wait_l2w = 3
rank fin_wait_w2l = 3
rank finack_wait_l2w = 4
rank finack_wait_w2l = 4
rank closing_l2w = 5
rank closing_w2l = 5
rank closed = 6
rank unknown = 7
rank reset = 8

-- No packet from either side moves the TCP state of an entry back to an earlier stage of its
-- life.
pub rank-entry_step : (t : State) (f : From) (p : ℕ) → rank t ≤ rank (entry_step t f p)
unfolding entry_step
rank-entry_step t f p = ground arith
