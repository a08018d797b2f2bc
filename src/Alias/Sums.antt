-- ===== src/Alias/Sums.antt =====
-- src/alias.h: the transport checksum of a packet whose source has been replaced.
use natporte.Base.{
  ℕ, ◌+◌, ◌%◌, ◌^◌, ◌<◌, ◌≤◌, ◌≡◌, ◌↔◌, ◌⊎◌, subst, ◌∙◌, arith, Bytes, IsBytes, load16, store16,
  store32, store16_outside, store32_outside, store16-IsBytes, store32-IsBytes, load16-same, inl,
  inr,
}
use natporte.Node.{Node}
use natporte.Packet.{ip_hl, ip_p, l4, ipproto_tcp, ipproto_udp}
use natporte.Checksum.Diff.{carry, sum_field, set_diff_checksum-right_iff}
use natporte.Alias.{to_wan}

module _ (b : Bytes) (bytes : IsBytes b) (t : Node) (hl : 5 ≤ ip_hl b 0) where
  -- The packet with its new source, before the checksum is patched.
  abbrev moved : Bytes
  moved = store16 (store32 b 12 t.wan.ip) (l4 b 0) t.wan.port

  moved_outside : (j : ℕ) → (j < 12) ⊎ (l4 b 0 + 2 ≤ j) → moved j ≡ b j
  moved_outside j far =
      store16_outside (store32 b 12 t.wan.ip) (l4 b 0) t.wan.port j (ground arith) (ground arith)
      ∙ store32_outside b 12 t.wan.ip j (ground arith)

  same_field : sum_field moved 0 ≡ sum_field b 0
  same_field =
      ground (arith, moved_outside 0 (inl (omega arith)), moved_outside 9 (inl (omega arith)))

  abbrev Right : ℕ → ℕ → Type 0
  Right f v =
      ((load16 (to_wan b t) f + t.wan.ip + t.wan.port) % 65535
        ≡ (v + t.lan.ip + t.lan.port) % 65535)
      ↔ (carry t.lan.ip t.lan.port ≡ carry t.wan.ip t.wan.port)

  -- When the source of a TCP or UDP packet with an IP header of at least 20 bytes is replaced by
  -- an entry's WAN end, the new transport checksum plus that end's address and port is the old
  -- checksum plus the LAN end's address and port modulo 65535, exactly when address plus port
  -- overflows 32 bits for both ends or for neither; the ends have their declared widths.
  pub to_wan-checksum_iff :
      (ip_p b 0 ≡ ipproto_tcp) ⊎ (ip_p b 0 ≡ ipproto_udp)
      → t.lan.ip < 2 ^ 32
      → t.lan.port < 2 ^ 16
      → t.wan.ip < 2 ^ 32
      → t.wan.port < 2 ^ 16
      → let f = sum_field b 0 in
        ((load16 (to_wan b t) f + t.wan.ip + t.wan.port) % 65535
          ≡ (load16 b f + t.lan.ip + t.lan.port) % 65535)
        ↔ (carry t.lan.ip t.lan.port ≡ carry t.wan.ip t.wan.port)
  unfolding to_wan
  to_wan-checksum_iff proto li lp wi wp =
      let whole =
        set_diff_checksum-right_iff moved (store16-IsBytes _ _ _ (store32-IsBytes _ _ _ bytes)) 0
          t.lan.ip t.lan.port t.wan.ip t.wan.port li lp wi wp
          (ground (arith, proto, moved_outside 9 (inl (omega arith)))) in
      let kept : load16 moved (sum_field b 0) ≡ load16 b (sum_field b 0) =
        load16-same b moved (sum_field b 0) (λ j lo hi. moved_outside j (inr (ground arith))) in
      subst (λ v. Right (sum_field b 0) v) kept
        (subst (λ f. Right f (load16 moved f)) same_field whole.0)
