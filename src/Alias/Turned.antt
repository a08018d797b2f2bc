-- ===== src/Alias/Turned.antt =====
-- src/alias.h: the segment that `tcp_reset_alias` makes, before its checksum is filled.
use natporte.Base.{
  ℕ, ◌+◌, ◌<◌, ◌≤◌, ◌≡◌, ◌⊎◌, inl, inr, refl, ap, ◌∙◌, arith, u32, htonl, Bytes, IsBytes, load16,
  load32, store8, store16, store32, store8-IsBytes, store8_outside, store16_outside, load32-same,
  load16-same, store32_outside, load16-store16_self, load32-store32_self, load16-lt, load32-lt,
  store16-IsBytes, store32-IsBytes,
}
use natporte.Packet.{ip_hl, ip_src, ip_dst, l4, sport_at, dport_at, th_flags_at}
use natporte.Checksum.{set_checksum}
use natporte.TcpState.{th_rst, th_ack}
use natporte.Alias.{tcp_reset_alias}

module _ (b : Bytes) where
  -- The two addresses change places, and nothing else.
  abbrev swapped_ips : Bytes
  swapped_ips = store32 (store32 b 12 (ip_dst b 0)) 16 (ip_src b 0)

  -- The ports at `l` and `l + 2` change places, and nothing else.
  abbrev swapped_ports : ℕ → Bytes
  swapped_ports l = let b1 = store16 b l (load16 b (l + 2)) in store16 b1 (l + 2) (load16 b l)

  -- Flags, acknowledgement and sequence number of the TCP header at `l`.
  abbrev answered : ℕ → Bytes
  answered l =
      let b1 = store8 b (l + 13) 20 in
      let b2 = store32 b1 (l + 8) (u32 (load32 b1 (l + 4) + htonl 1)) in store32 b2 (l + 4) 0

module _ (b : Bytes) (bytes : IsBytes b) where
  swapped_ips-swaps :
      (ip_src (swapped_ips b) 0 ≡ ip_dst b 0)
      × (ip_dst (swapped_ips b) 0 ≡ ip_src b 0)
      × ((j : ℕ) → j < 12 ⊎ 20 ≤ j → (swapped_ips b) j ≡ b j)
  swapped_ips-swaps =
      let b1 : Bytes = store32 b 12 (ip_dst b 0) in
      (
        load32-same b1 (swapped_ips b) 12
              (λ j lo hi. store32_outside b1 16 (ip_src b 0) j (inl (omega arith)))
            ∙ load32-store32_self b 12 (ip_dst b 0) (load32-lt b 16 bytes),
        load32-store32_self b1 16 (ip_src b 0) (load32-lt b 12 bytes),
        λ j far.
            store32_outside b1 16 (ip_src b 0) j (ground arith)
            ∙ store32_outside b 12 (ip_dst b 0) j (ground arith),
      )

  swapped_ports-swaps :
      (l : ℕ)
      → (load16 (swapped_ports b l) l ≡ load16 b (l + 2))
        × (load16 (swapped_ports b l) (l + 2) ≡ load16 b l)
        × ((j : ℕ) → j < l ⊎ l + 4 ≤ j → swapped_ports b l j ≡ b j)
  swapped_ports-swaps l =
      let b1 : Bytes = store16 b l (load16 b (l + 2)) in
      (
        load16-same b1 (swapped_ports b l) l
              (λ j lo hi. store16_outside b1 (l + 2) (load16 b l) j (omega arith) (omega arith))
            ∙ load16-store16_self b l (load16 b (l + 2)) (load16-lt b (l + 2) bytes),
        load16-store16_self b1 (l + 2) (load16 b l) (load16-lt b l bytes),
        λ j far.
            store16_outside b1 (l + 2) (load16 b l) j (ground arith) (ground arith)
            ∙ store16_outside b l (load16 b (l + 2)) j (ground arith) (ground arith),
      )

  answered-answers :
      (l : ℕ)
      → (answered b l (l + 13) ≡ 20)
        × (load32 (answered b l) (l + 8) ≡ u32 (load32 b (l + 4) + htonl 1))
        × (load32 (answered b l) (l + 4) ≡ 0)
        × ((j : ℕ) → j < l + 4 ⊎ l + 14 ≤ j → answered b l j ≡ b j)
  answered-answers l =
      let b1 : Bytes = store8 b (l + 13) 20 in
      let ack : ℕ = u32 (load32 b1 (l + 4) + htonl 1) in
      let b2 : Bytes = store32 b1 (l + 8) ack in
      let seq : load32 b1 (l + 4) ≡ load32 b (l + 4) =
        load32-same b b1 (l + 4) (λ j lo hi. store8_outside b (l + 13) 20 j (omega arith)) in
      (
        store32_outside b2 (l + 4) 0 (l + 13) (inr (omega arith))
            ∙ store32_outside b1 (l + 8) ack (l + 13) (inr (omega arith))
            ∙ (unfold store8 in ground arith),
        load32-same b2 (answered b l) (l + 8)
              (λ j lo hi. store32_outside b2 (l + 4) 0 j (inr (omega arith)))
            ∙ load32-store32_self b1 (l + 8) ack (omega arith)
            ∙ ap (λ s. u32 (s + htonl 1)) seq,
        load32-store32_self b2 (l + 4) 0 (omega arith),
        λ j far.
            store32_outside b2 (l + 4) 0 j (ground arith)
            ∙ store32_outside b1 (l + 8) ack j (ground arith)
            ∙ store8_outside b (l + 13) 20 j (ground arith),
      )

-- The segment before its checksum is filled.
abbrev pub turned : Bytes → Bytes
turned b = answered (swapped_ports (swapped_ips b) (l4 b 0)) (l4 b 0)

module _ (b : Bytes) (bytes : IsBytes b) where
  swapped_ips-IsBytes : IsBytes (swapped_ips b)
  swapped_ips-IsBytes = store32-IsBytes _ _ _ (store32-IsBytes _ _ _ bytes)

  swapped_ports-IsBytes : (l : ℕ) → IsBytes (swapped_ports b l)
  swapped_ports-IsBytes l = store16-IsBytes _ _ _ (store16-IsBytes _ _ _ bytes)

  answered-IsBytes : (l : ℕ) → IsBytes (answered b l)
  answered-IsBytes l = store32-IsBytes _ _ _ (store32-IsBytes _ _ _ (store8-IsBytes _ _ _ bytes))

pub turned-IsBytes : (b : Bytes) → IsBytes b → IsBytes (turned b)
turned-IsBytes b bytes =
    answered-IsBytes _ (swapped_ports-IsBytes _ (swapped_ips-IsBytes b bytes) _) _

pub turned-reset : (b : Bytes) (size : ℕ) → tcp_reset_alias b size ≡ set_checksum (turned b) 0 size
turned-reset b size = unfold tcp_reset_alias in refl

-- The fields of the segment before its checksum is filled.
pub turned-fields :
    (b : Bytes)
    → IsBytes b
    → 5 ≤ ip_hl b 0
    → let l = l4 b 0 in
      (ip_src (turned b) 0 ≡ ip_dst b 0)
      × (ip_dst (turned b) 0 ≡ ip_src b 0)
      × (load16 (turned b) (sport_at l) ≡ load16 b (dport_at l))
      × (load16 (turned b) (dport_at l) ≡ load16 b (sport_at l))
      × (turned b (th_flags_at l) ≡ th_rst + th_ack)
      × (load32 (turned b) (l + 8) ≡ u32 (load32 b (l + 4) + htonl 1))
      × (load32 (turned b) (l + 4) ≡ 0)
      × ((j : ℕ) → j < 12 → turned b j ≡ b j)
turned-fields b bytes hl =
    let l : ℕ = l4 b 0 in
    let b1 : Bytes = swapped_ips b in
    let b2 : Bytes = swapped_ports b1 l in
    let ips = swapped_ips-swaps b bytes in
    let ports = swapped_ports-swaps b1 (swapped_ips-IsBytes b bytes) l in
    let answer = answered-answers b2 (swapped_ports-IsBytes b1 (swapped_ips-IsBytes b bytes) l) l in
    let before = λ (j : ℕ) (near : j < l). answer.3 j (inl (omega arith)) ∙ ports.2 j (inl near) in
    (
      load32-same b1 (turned b) 12 (λ j lo hi. before j (omega arith)) ∙ ips.0,
      load32-same b1 (turned b) 16 (λ j lo hi. before j (omega arith)) ∙ ips.1,
      load16-same b2 (turned b) l (λ j lo hi. answer.3 j (inl (omega arith)))
          ∙ ports.0
          ∙ load16-same b b1 (l + 2) (λ j lo hi. ips.2 j (inr (omega arith))),
      load16-same b2 (turned b) (l + 2) (λ j lo hi. answer.3 j (inl (omega arith)))
          ∙ ports.1
          ∙ load16-same b b1 l (λ j lo hi. ips.2 j (inr (omega arith))),
      answer.0,
      answer.1
          ∙ ap (λ s. u32 (s + htonl 1))
              (load32-same b b2 (l + 4)
                (λ j lo hi. ports.2 j (inr (omega arith)) ∙ ips.2 j (inr (omega arith)))),
      answer.2,
      λ j near. before j (omega arith) ∙ ips.2 j (inl near),
    )
