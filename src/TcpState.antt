-- ===== src/TcpState.antt =====
-- src/alias.h `tcp_state_check` and the states of src/structure.h: how a packet's flags move the
-- state that a NAT entry keeps for its TCP connection.
pub mod Flags
pub mod Step
pub mod Teardown
mod Examples
use natporte.Codes.{From, from_lan2wan, from_wan2lan, from_unknown}
use natporte.Base.{
  ℕ, ◌==◌, if◌then◌else◌, not, Bool, true, false, ◌&&◌, bit_and, bit_or, List, [], ◌∷◌,
}

-- TH_FIN, TH_SYN, TH_RST and TH_ACK.
abbrev pub th_fin : ℕ
th_fin = 0x01

abbrev pub th_syn : ℕ
th_syn = 0x02

abbrev pub th_rst : ℕ
th_rst = 0x04

abbrev pub th_ack : ℕ
th_ack = 0x10

-- S_TF_ESTABLISHED to S_TF_RESET, and S_TF_UNKNOWN.
pub data State : Type 0 where
  established syn_sent synack_recived fin_wait_l2w fin_wait_w2l finack_wait_l2w : State
  finack_wait_w2l closing_l2w closing_w2l closed reset unknown : State

pub State-discrete : Discrete State
State-discrete = hlevel

-- `pflag & m` as a condition.
unfoldable pub has : ℕ → ℕ → Bool
has pflag m = not (bit_and pflag m == 0)

-- `(pflag & m) == m`.
unfoldable pub has_all : ℕ → ℕ → Bool
has_all pflag m = bit_and pflag m == m

-- The branch for ALIAS_FROM_WAN2LAN. A `break` leads to S_TF_UNKNOWN.
unfoldable pub check_wan2lan : State → ℕ → State
check_wan2lan established p =
    if has p th_rst then reset else if has p th_fin then fin_wait_l2w else established
check_wan2lan syn_sent p =
    if has p th_rst then reset else if has p th_syn then synack_recived else unknown
check_wan2lan synack_recived p =
    if has p th_rst
    then reset
    else if has_all p (bit_or th_syn th_ack)
    then established
    else if has p th_ack
    then synack_recived
    else unknown
check_wan2lan fin_wait_w2l p =
    if has p th_rst
    then reset
    else if has p th_ack && not (has_all p th_fin)
    then finack_wait_w2l
    else if has p (bit_or th_ack th_fin)
    then closing_l2w
    else unknown
check_wan2lan finack_wait_w2l p =
    if has p th_rst
    then reset
    else if has p th_fin
    then closing_l2w
    else if has p th_ack
    then finack_wait_w2l
    else unknown
check_wan2lan closing_w2l p =
    if has p th_rst then reset else if has p th_ack then closed else unknown
check_wan2lan closed p = unknown
check_wan2lan reset p = unknown
check_wan2lan finack_wait_l2w p = if has p th_rst then reset else finack_wait_l2w
check_wan2lan closing_l2w p = if has p th_rst then reset else closing_l2w
check_wan2lan fin_wait_l2w p = if has p th_rst then reset else fin_wait_l2w
check_wan2lan unknown p = if has p th_rst then reset else unknown

-- The branch for ALIAS_FROM_LAN2WAN.
unfoldable pub check_lan2wan : State → ℕ → State
check_lan2wan established p =
    if has p th_rst then reset else if has p th_fin then fin_wait_w2l else established
check_lan2wan syn_sent p =
    if has p th_rst then reset else if has p th_syn then synack_recived else unknown
check_lan2wan synack_recived p =
    if has p th_rst
    then reset
    else if has_all p (bit_or th_syn th_ack)
    then established
    else if has p th_syn
    then synack_recived
    else unknown
check_lan2wan fin_wait_l2w p =
    if has p th_rst
    then reset
    else if has p th_ack && not (has_all p th_fin)
    then finack_wait_l2w
    else if has p (bit_or th_ack th_fin)
    then closing_w2l
    else unknown
check_lan2wan finack_wait_l2w p =
    if has p th_rst
    then reset
    else if has p th_fin
    then closing_w2l
    else if has p th_ack
    then finack_wait_l2w
    else unknown
check_lan2wan closing_l2w p =
    if has p th_rst then reset else if has p th_ack then closed else unknown
check_lan2wan closed p = unknown
check_lan2wan reset p = unknown
check_lan2wan finack_wait_w2l p = if has p th_rst then reset else finack_wait_w2l
check_lan2wan closing_w2l p = if has p th_rst then reset else closing_w2l
check_lan2wan fin_wait_w2l p = if has p th_rst then reset else fin_wait_w2l
check_lan2wan unknown p = if has p th_rst then reset else unknown

unfoldable pub tcp_state_check : State → ℕ → From → State
unfolding check_wan2lan check_lan2wan
tcp_state_check t p from_wan2lan = check_wan2lan t p
tcp_state_check t p from_lan2wan = check_lan2wan t p
tcp_state_check t p from_unknown = unknown

-- The flags that an entry has after one packet: `wan2lan_alias` and `lan2wan_alias` check the
-- packet only while the entry is neither closed nor reset.
unfoldable pub entry_step : State → From → ℕ → State
unfolding tcp_state_check
entry_step closed f p = closed
entry_step reset f p = reset
entry_step t f p = tcp_state_check t p f

-- The flags after a sequence of packets, the first one first.
unfoldable pub entry_run : State → List (From × ℕ) → State
entry_run t [] = t
entry_run t ((f, p) ∷ ps) = entry_run (entry_step t f p) ps
