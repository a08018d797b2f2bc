-- ===== src/TcpState/Teardown.antt =====
-- Whole connections: what a sequence of packets must hold before an entry is closed.
use natporte.Base.{ℕ, ◌<◌, ◌≡◌, refl, arith, Bool, true, false, ◌⊎◌, inl, inr, List, [], ◌∷◌}
use natporte.Codes.{From, from_lan2wan, from_wan2lan}
use natporte.TcpState.{
  State, syn_sent, fin_wait_l2w, fin_wait_w2l, finack_wait_l2w, finack_wait_w2l, closing_l2w,
  closing_w2l, closed, th_fin, th_syn, th_rst, th_ack, has, entry_step, entry_run,
}
use natporte.TcpState.Flags.{has_all-fin, has-ack_fin, has_all-syn_ack}

-- Every packet's flags are a `uint8_t`.
abbrev pub AreBytes : List (From × ℕ) → Type 0
AreBytes [] = Unit
AreBytes ((f, p) ∷ ps) = (p < 256) × AreBytes ps

-- A packet of the sequence comes from `f` with the FIN flag.
abbrev pub HasFin : From → List (From × ℕ) → Type 0
HasFin f [] = ⊥
HasFin f ((g, p) ∷ ps) = ((g ≡ f) × (has p th_fin ≡ true)) ⊎ HasFin f ps

-- Whether the state says that a FIN from the LAN (from the WAN) has been seen.
abbrev pub lan_fin_seen : State → Bool
lan_fin_seen fin_wait_w2l = true
lan_fin_seen finack_wait_w2l = true
lan_fin_seen closing_l2w = true
lan_fin_seen closing_w2l = true
lan_fin_seen closed = true
lan_fin_seen _ = false

abbrev pub wan_fin_seen : State → Bool
wan_fin_seen fin_wait_l2w = true
wan_fin_seen finack_wait_l2w = true
wan_fin_seen closing_l2w = true
wan_fin_seen closing_w2l = true
wan_fin_seen closed = true
wan_fin_seen _ = false

lan_fin_step :
    (t : State) (f : From) (p : ℕ)
    → p < 256
    → lan_fin_seen t ≡ false
    → (lan_fin_seen (entry_step t f p) ≡ false) ⊎ ((f ≡ from_lan2wan) × (has p th_fin ≡ true))
unfolding entry_step
lan_fin_step t f p byte seen = ground (arith, has_all-fin p byte, has-ack_fin p byte)

wan_fin_step :
    (t : State) (f : From) (p : ℕ)
    → p < 256
    → wan_fin_seen t ≡ false
    → (wan_fin_seen (entry_step t f p) ≡ false) ⊎ ((f ≡ from_wan2lan) × (has p th_fin ≡ true))
unfolding entry_step
wan_fin_step t f p byte seen = ground (arith, has_all-fin p byte, has-ack_fin p byte)

lan_fin_of_closed :
    (t : State) (ps : List (From × ℕ))
    → AreBytes ps
    → lan_fin_seen t ≡ false
    → entry_run t ps ≡ closed
    → HasFin from_lan2wan ps
unfolding entry_run
lan_fin_of_closed t [] b seen e = ground arith
lan_fin_of_closed t ((f, p) ∷ ps) b seen e = elim (lan_fin_step t f p b.0 seen) [
  | inl still ↦ inr (lan_fin_of_closed (entry_step t f p) ps b.1 still e)
  | inr fin ↦ inl fin
]

wan_fin_of_closed :
    (t : State) (ps : List (From × ℕ))
    → AreBytes ps
    → wan_fin_seen t ≡ false
    → entry_run t ps ≡ closed
    → HasFin from_wan2lan ps
unfolding entry_run
wan_fin_of_closed t [] b seen e = ground arith
wan_fin_of_closed t ((f, p) ∷ ps) b seen e = elim (wan_fin_step t f p b.0 seen) [
  | inl still ↦ inr (wan_fin_of_closed (entry_step t f p) ps b.1 still e)
  | inr fin ↦ inl fin
]

-- An entry that starts in S_TF_SYN_SENT is in S_TF_CLOSED only after a FIN from the LAN and a
-- FIN from the WAN, whatever packets come in whatever order, their flags being bytes.
pub closed-needs-both_fins :
    (ps : List (From × ℕ))
    → AreBytes ps
    → entry_run syn_sent ps ≡ closed
    → HasFin from_lan2wan ps × HasFin from_wan2lan ps
closed-needs-both_fins ps b e =
    (lan_fin_of_closed syn_sent ps b refl e, wan_fin_of_closed syn_sent ps b refl e)

-- A packet with the flag `m` and no reset flag.
abbrev pub Carries : ℕ → ℕ → Type 0
Carries m p = (p < 256) × (has p th_rst ≡ false) × (has p m ≡ true)

-- The handshake and an orderly close lead a new entry to S_TF_CLOSED, whichever end sends its
-- FIN first: SYN without ACK from the LAN, SYN and ACK from the WAN, a FIN from one end, a FIN
-- from the other, an ACK from the first, none with a reset flag, all flags being bytes.
pub entry_run_orderly :
    (syn answer fin1 fin2 last : ℕ)
    → Carries th_syn syn
    → has syn th_ack ≡ false
    → Carries th_syn answer
    → has answer th_ack ≡ true
    → Carries th_fin fin1
    → Carries th_fin fin2
    → Carries th_ack last
    → (entry_run syn_sent (
          (from_lan2wan, syn)
          ∷ (from_wan2lan, answer)
          ∷ (from_lan2wan, fin1)
          ∷ (from_wan2lan, fin2)
          ∷ (from_lan2wan, last)
          ∷ [])
        ≡ closed)
      × (entry_run syn_sent (
            (from_lan2wan, syn)
            ∷ (from_wan2lan, answer)
            ∷ (from_wan2lan, fin1)
            ∷ (from_lan2wan, fin2)
            ∷ (from_wan2lan, last)
            ∷ [])
          ≡ closed)
unfolding entry_run entry_step
entry_run_orderly syn answer fin1 fin2 last a b c d e f g = (
  ground (arith, has_all-syn_ack answer c.0, has_all-fin fin2 f.0, has-ack_fin fin2 f.0),
  ground (arith, has_all-syn_ack answer c.0, has_all-fin fin2 f.0, has-ack_fin fin2 f.0),
)
