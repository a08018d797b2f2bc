-- ===== src/Fragment/Quote.antt =====
-- src/alias.h: the part of the message of `mk_fn_packet` that quotes the packet.
use natporte.Base.{
  ℕ, ◌+◌, ◌-◌, ◌%◌, ◌≤◌, ◌<◌, ◌≡◌, ◌∙◌, ◌⊎◌, inl, inr, Bytes, IsBytes, load16, load32, htons, htonl,
  htonl-lt, arith, refl, ap, store8, store16, store32, ◌≢◌,
}
use natporte.Packet.{ip_hl, ip_p, ip_src, l4, ipproto_tcp, ipproto_udp, ipproto_icmp}
use natporte.Checksum.{checksum_ip, checksum_transport, set_checksum}
use natporte.Checksum.Verify.{tcp_filled, udp_filled, icmp_filled, fill_checksum_outside}
use natporte.Filter.{Config}
use natporte.Fragment.{copy_bytes, fn_headers, fn_inner_header, fn_content}
use natporte.Fragment.Frame.{
  headers-IsBytes, inner-IsBytes, copy_bytes-IsBytes, copy_bytes_outside, copy_bytes_inside,
  checksum_ip-IsBytes, checksum_transport-IsBytes, checksum_ip_outside, checksum_transport_outside,
}

module _ (c : Config) (id : ℕ) (b : Bytes) (a : ℕ) (bytes : IsBytes b) where
  abbrev pub blank : Bytes
  blank = fn_inner_header (fn_headers c id b a) b

  blank-IsBytes : IsBytes blank
  blank-IsBytes = inner-IsBytes (fn_headers c id b a) b (headers-IsBytes c id b a) bytes

  pub blank_first : (blank 0 ≡ 0x45) × (blank 9 ≡ 1) × (blank 20 ≡ 3) × (blank 21 ≡ 4)
  unfolding fn_headers fn_inner_header copy_bytes store16 store32 store8
  blank_first = (refl, refl, refl, refl)

  pub blank_to : load32 blank 16 ≡ ip_src b 0
  unfolding fn_headers fn_inner_header copy_bytes store16 store32 store8 load32
  blank_to = omega (arith, bytes 12, bytes 13, bytes 14, bytes 15)

  pub blank_from : load32 blank 12 ≡ htonl a
  unfolding fn_headers fn_inner_header copy_bytes store16 store32 store8 load32
  blank_from = omega (arith, htonl-lt a)

  pub blank_mtu : 50 ≤ c.wan_if_mtu → load16 blank 26 ≡ htons (c.wan_if_mtu - 50)
  unfolding fn_headers fn_inner_header copy_bytes store16 store32 store8 load16 htons
  blank_mtu h = omega arith

  pub blank_inner : blank 28 % 16 ≡ 5
  unfolding fn_headers fn_inner_header copy_bytes store16 store32 store8
  blank_inner = omega (arith, bytes 0)

  pub blank_same : (k : ℕ) → k < 20 → k ≢ 0 → k ≢ 2 → k ≢ 3 → blank (28 + k) ≡ b k
  unfolding fn_headers fn_inner_header copy_bytes store16 store32 store8
  blank_same k h h0 h2 h3 = ground arith

  abbrev pub copied : Bytes
  copied = copy_bytes blank 48 b (l4 b 0) 8

  abbrev pub quoted : Bytes
  quoted = checksum_transport (checksum_ip copied 28) 28 28

  pub quoted_eq : quoted ≡ fn_content blank b
  quoted_eq = unfold fn_content in refl

  copied-IsBytes : IsBytes copied
  copied-IsBytes = copy_bytes-IsBytes blank b 48 (l4 b 0) 8 blank-IsBytes bytes

  pub quoted-IsBytes : IsBytes quoted
  quoted-IsBytes =
      checksum_transport-IsBytes (checksum_ip copied 28) 28 28
        (checksum_ip-IsBytes copied 28 copied-IsBytes)

  inner_first : checksum_ip copied 28 28 ≡ blank 28
  inner_first =
      checksum_ip_outside copied 28 28 (inl (omega arith))
      ∙ copy_bytes_outside blank b 48 (l4 b 0) 8 28 (inl (omega arith))

  -- The quotation's checksums leave the rest as it was.
  pub quoted_before : (j : ℕ) → j < 38 ⊎ 39 < j → j < 48 → quoted j ≡ blank j
  quoted_before j h k =
      checksum_transport_outside (checksum_ip copied 28) 28 28 j
        (omega (arith, ap (λ (t : ℕ). t % 16) inner_first, blank_inner))
      ∙ checksum_ip_outside copied 28 j (ground arith)
      ∙ copy_bytes_outside blank b 48 (l4 b 0) 8 j (inl k)

  inner_protocol : ip_p (checksum_ip copied 28) 28 ≡ ip_p b 0
  inner_protocol =
      checksum_ip_outside copied 28 37 (inl (omega arith))
      ∙ copy_bytes_outside blank b 48 (l4 b 0) 8 37 (inl (omega arith))
      ∙ blank_same 9 (omega arith) (omega arith) (omega arith) (omega arith)

  -- The quoted bytes are the packet's, less the transport checksum.
  pub quoted_content :
      (k : ℕ)
      → k < 8
      → (ip_p b 0 ≡ ipproto_tcp)
        ⊎ ((ip_p b 0 ≡ ipproto_udp) × (k < 6))
        ⊎ ((ip_p b 0 ≡ ipproto_icmp) × (4 ≤ k))
      → quoted (48 + k) ≡ b (l4 b 0 + k)
  unfolding set_checksum
  quoted_content k h p =
      filled p
      ∙ checksum_ip_outside copied 28 (48 + k) (inr (omega arith))
      ∙ copy_bytes_inside blank b 48 (l4 b 0) 8 k h
    where
      d : Bytes
      d = checksum_ip copied 28

      long : ip_hl d 28 ≡ 5
      long = omega (arith, ap (λ (t : ℕ). t % 16) inner_first, blank_inner)

      filled :
          (ip_p b 0 ≡ ipproto_tcp)
            ⊎ ((ip_p b 0 ≡ ipproto_udp) × (k < 6))
            ⊎ ((ip_p b 0 ≡ ipproto_icmp) × (4 ≤ k))
          → quoted (48 + k) ≡ d (48 + k)
      filled (inl tcp) =
          ap (λ (t : Bytes). t (48 + k))
            (tcp_filled d 28 28 (omega (arith, long)) (omega arith) (inner_protocol ∙ tcp))
          ∙ fill_checksum_outside d _ _ _ _ (48 + k) (inl (omega (arith, long)))
      filled (inr (inl udp)) =
          ap (λ (t : Bytes). t (48 + k))
            (udp_filled d 28 28 (omega (arith, long)) (omega arith) (inner_protocol ∙ udp.0))
          ∙ fill_checksum_outside d _ _ _ _ (48 + k) (inl (omega (arith, long)))
      filled (inr (inr icmp)) =
          ap (λ (t : Bytes). t (48 + k))
            (icmp_filled d 28 28 (omega (arith, long)) (omega arith) (inner_protocol ∙ icmp.0))
          ∙ fill_checksum_outside d _ _ _ _ (48 + k) (inr (omega (arith, long)))
