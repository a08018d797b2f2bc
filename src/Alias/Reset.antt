-- ===== src/Alias/Reset.antt =====
-- src/alias.h: `tcp_reset_alias`, which turns a segment into the reset that answers it.
use natporte.Base.{
  ℕ, ◌+◌, ◌*◌, ◌-◌, ◌%◌, ◌^◌, ◌<◌, ◌≤◌, ◌≡◌, ◌≢◌, ◌↔◌, inl, subst, ◌∙◌, arith, u32, htonl, Bytes,
  IsBytes, load16, load32, load32-same, load16-same, ==_iff,
}
use natporte.Packet.{ip_hl, ip_p, ip_src, ip_dst, l4, sport_at, dport_at, th_flags_at, ipproto_tcp}
use natporte.Checksum.{set_checksum, checksum_transport, checksum, pseudo_sum}
use natporte.TcpState.{th_rst, th_ack}
use natporte.Checksum.Verify.{set_checksum_verifies, fill_checksum_outside}
use natporte.Alias.{tcp_reset_alias}
use natporte.Alias.Turned.{turned, turned-IsBytes, turned-reset, turned-fields}

set_checksum_outside :
    (b : Bytes) (size j : ℕ)
    → ip_p b 0 ≡ ipproto_tcp
    → j < l4 b 0 + 16
    → set_checksum b 0 size j ≡ b j
unfolding set_checksum checksum_transport
set_checksum_outside b size j tcp near =
    rw ((==_iff _ _).1 tcp) (fill_checksum_outside b _ _ _ (l4 b 0 + 16) j (inl near))

-- Filling the checksum changes nothing that stands before it.
filled-same :
    (b : Bytes)
    → IsBytes b
    → (size : ℕ) → 5 ≤ ip_hl b 0
    → ip_p b 0 ≡ ipproto_tcp
    → (j : ℕ) → j < l4 b 0 + 16
    → tcp_reset_alias b size j ≡ turned b j
filled-same b bytes size hl tcp j near =
    let kept = (turned-fields b bytes hl).7 in
    rw (turned-reset b size) (
      set_checksum_outside (turned b) size j (kept 9 (omega arith) ∙ tcp)
        (omega (arith, kept 0 (omega arith))))

-- On a TCP segment of at most 65535 bytes, with an IP header of at least 20 bytes and 18 bytes
-- after it, `tcp_reset_alias` swaps the addresses and the ports, sets the flags to RST and ACK
-- and the sequence number to 0, and leaves a transport checksum that verifies.
pub tcp_reset_alias-answers :
    (b : Bytes)
    → IsBytes b
    → (size : ℕ) → 5 ≤ ip_hl b 0
    → ip_hl b 0 * 4 + 18 ≤ size
    → size ≤ 0xffff
    → ip_p b 0 ≡ ipproto_tcp
    → let l = l4 b 0 in
      let b' = tcp_reset_alias b size in
      (ip_src b' 0 ≡ ip_dst b 0)
      × (ip_dst b' 0 ≡ ip_src b 0)
      × (load16 b' (sport_at l) ≡ load16 b (dport_at l))
      × (load16 b' (dport_at l) ≡ load16 b (sport_at l))
      × (b' (th_flags_at l) ≡ th_rst + th_ack)
      × (load32 b' (l + 4) ≡ 0)
      × (checksum b' l (size - ip_hl b 0 * 4) (pseudo_sum b' 0 size) ≡ 0)
tcp_reset_alias-answers b bytes size hl long short tcp =
    let l : ℕ = l4 b 0 in
    let b' : Bytes = tcp_reset_alias b size in
    let fields = turned-fields b bytes hl in
    let same = filled-same b bytes size hl tcp in
    let first : turned b 0 ≡ b 0 = fields.7 0 (omega arith) in
    let sums =
      set_checksum_verifies (turned b) (turned-IsBytes b bytes) 0 size (omega (arith, first))
        (omega (arith, first)) short (inl (fields.7 9 (omega arith) ∙ tcp)) in
    (
      load32-same (turned b) b' 12 (λ j lo hi. same j (omega arith)) ∙ fields.0,
      load32-same (turned b) b' 16 (λ j lo hi. same j (omega arith)) ∙ fields.1,
      load16-same (turned b) b' l (λ j lo hi. same j (omega arith)) ∙ fields.2,
      load16-same (turned b) b' (l + 2) (λ j lo hi. same j (omega arith)) ∙ fields.3,
      same (l + 13) (omega arith) ∙ fields.4,
      load32-same (turned b) b' (l + 4) (λ j lo hi. same j (omega arith)) ∙ fields.6,
      rw (turned-reset b size) (
          subst
            (λ z.
              checksum (set_checksum (turned b) 0 size) (0 + z % 16 * 4) (size - z % 16 * 4)
                (pseudo_sum (set_checksum (turned b) 0 size) 0 size)
              ≡ 0)
            first sums),
    )

-- Counting up in network order is right unless the last byte is 255.
counted_up :
    (b : Bytes)
    → IsBytes b
    → (i : ℕ)
    → (htonl (u32 (load32 b i + htonl 1)) ≡ (htonl (load32 b i) + 1) % 2 ^ 32) ↔ (b (i + 3) ≢ 255)
unfolding htonl load32
counted_up b bytes i = ground (arith, bytes i, bytes (i + 1), bytes (i + 2), bytes (i + 3))

-- On a TCP segment with an IP header of at least 20 bytes, the number that `tcp_reset_alias`
-- acknowledges is the sequence number plus 1, modulo 2 ^ 32 and read in host order, exactly when
-- the last byte of the sequence number is not 255.
pub tcp_reset_alias-ack_iff :
    (b : Bytes)
    → IsBytes b
    → (size : ℕ) → 5 ≤ ip_hl b 0
    → ip_p b 0 ≡ ipproto_tcp
    → let l = l4 b 0 in
      (htonl (load32 (tcp_reset_alias b size) (l + 8)) ≡ (htonl (load32 b (l + 4)) + 1) % 2 ^ 32)
      ↔ (b (l + 4 + 3) ≢ 255)
tcp_reset_alias-ack_iff b bytes size hl tcp =
    let l : ℕ = l4 b 0 in
    let ack : load32 (tcp_reset_alias b size) (l + 8) ≡ u32 (load32 b (l + 4) + htonl 1) =
      load32-same (turned b) (tcp_reset_alias b size) (l + 8)
        (λ j lo hi. filled-same b bytes size hl tcp j (omega arith))
      ∙ (turned-fields b bytes hl).5 in
    rw ack (counted_up b bytes (l + 4))
