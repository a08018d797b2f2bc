-- ===== src/Alias/Rewrite.antt =====
-- src/alias.h: what the rewriting of a packet's source or destination leaves in its header.
use natporte.Base.{
  ℕ, ◌+◌, ◌^◌, ◌<◌, ◌≤◌, ◌≡◌, ◌∙◌, arith, Bytes, load16, load32, store8, store16, store32,
  store16_outside, load32-same, load16-same, store32_outside, load16-store16_self,
  load32-store32_self,
}
use natporte.Node.{Node}
use natporte.Packet.{ip_hl, ip_src, ip_dst, l4, sport_at, dport_at}
use natporte.Checksum.{set_diff_checksum}
use natporte.Alias.{to_lan, to_wan}

-- Up to the ports a patched checksum changes nothing.
ends-set_diff_checksum :
    (b : Bytes) (oip oport aip aport j : ℕ)
    → j < l4 b 0 + 4
    → set_diff_checksum b 0 oip oport aip aport j ≡ b j
unfolding set_diff_checksum store16 store8
ends-set_diff_checksum b oip oport aip aport j h = ground arith

-- The header's words and a port field after an address and a port have been stored.
pub stored_ends :
    (b : Bytes) (i port ip sport : ℕ)
    → 12 ≤ i
    → i ≤ 16
    → 20 ≤ port
    → ip < 2 ^ 32
    → sport < 2 ^ 16
    → let b' = store16 (store32 b i ip) port sport in
      (load32 b' i ≡ ip) × (load16 b' port ≡ sport) × ((j : ℕ) → j < i → b' j ≡ b j)
stored_ends b i port ip sport lo hi far hip hport =
    let b1 : Bytes = store32 b i ip in
    (
      load32-same b1 (store16 b1 port sport) i
            (λ j lo h. store16_outside b1 port sport j (omega arith) (omega arith))
          ∙ load32-store32_self b i ip hip,
      load16-store16_self b1 port sport hport,
      λ j h.
          store16_outside b1 port sport j (omega arith) (omega arith)
          ∙ store32_outside b i ip j (ground arith),
    )

-- The ends and the header of a packet after its source has been replaced.
pub to_wan-ends :
    (b : Bytes) (t : Node)
    → 5 ≤ ip_hl b 0
    → t.wan.ip < 2 ^ 32
    → t.wan.port < 2 ^ 16
    → (ip_src (to_wan b t) 0 ≡ t.wan.ip)
      × (load16 (to_wan b t) (sport_at (l4 b 0)) ≡ t.wan.port)
      × ((j : ℕ) → j < 12 → to_wan b t j ≡ b j)
unfolding to_wan
to_wan-ends b t hl hi hp =
    let b2 : Bytes = store16 (store32 b 12 t.wan.ip) (l4 b 0) t.wan.port in
    let parts =
      stored_ends b 12 (l4 b 0) t.wan.ip t.wan.port (omega arith) (omega arith) (omega arith) hi
        hp in
    let kept : (j : ℕ)
        → j < l4 b 0 + 4
        → set_diff_checksum b2 0 t.lan.ip t.lan.port t.wan.ip t.wan.port j ≡ b2 j =
      λ j h.
        ends-set_diff_checksum b2 t.lan.ip t.lan.port t.wan.ip t.wan.port j
          (omega (arith, parts.2 0 (omega arith))) in
    (
      load32-same b2 _ 12 (λ j lo h. kept j (omega arith)) ∙ parts.0,
      load16-same b2 _ (l4 b 0) (λ j lo h. kept j (omega arith)) ∙ parts.1,
      λ j h. kept j (omega arith) ∙ parts.2 j h,
    )

-- The same for the destination.
pub to_lan-ends :
    (b : Bytes) (t : Node)
    → 5 ≤ ip_hl b 0
    → t.lan.ip < 2 ^ 32
    → t.lan.port < 2 ^ 16
    → (ip_dst (to_lan b t) 0 ≡ t.lan.ip)
      × (load16 (to_lan b t) (dport_at (l4 b 0)) ≡ t.lan.port)
      × ((j : ℕ) → j < 16 → to_lan b t j ≡ b j)
unfolding to_lan
to_lan-ends b t hl hi hp =
    let b2 : Bytes = store16 (store32 b 16 t.lan.ip) (dport_at (l4 b 0)) t.lan.port in
    let parts =
      stored_ends b 16 (dport_at (l4 b 0)) t.lan.ip t.lan.port (omega arith) (omega arith)
        (omega arith) hi hp in
    let kept : (j : ℕ)
        → j < l4 b 0 + 4
        → set_diff_checksum b2 0 t.wan.ip t.wan.port t.lan.ip t.lan.port j ≡ b2 j =
      λ j h.
        ends-set_diff_checksum b2 t.wan.ip t.wan.port t.lan.ip t.lan.port j
          (omega (arith, parts.2 0 (omega arith))) in
    (
      load32-same b2 _ 16 (λ j lo h. kept j (omega arith)) ∙ parts.0,
      load16-same b2 _ (dport_at (l4 b 0)) (λ j lo h. kept j (omega arith)) ∙ parts.1,
      λ j h. kept j (omega arith) ∙ parts.2 j h,
    )
