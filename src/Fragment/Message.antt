-- ===== src/Fragment/Message.antt =====
-- src/alias.h: what `mk_fn_packet` returns.
use natporte.Base.{
  ℕ, ◌+◌, ◌-◌, ◌*◌, ◌%◌, ◌^◌, ◌≤◌, ◌<◌, ◌≡◌, ◌∙◌, ◌⊎◌, inl, inr, some, true, false, Bytes, IsBytes,
  load16, load32, load16-same, load32-same, load32-moved, htons, u16, arith, refl, ap,
}
use natporte.Packet.{ip_hl, ip_p, ip_src, ip_dst, l4, ipproto_tcp, ipproto_udp, ipproto_icmp}
use natporte.Checksum.{checksum, checksum_ip, set_checksum}
use natporte.Checksum.Verify.{
  icmp_filled, checksum_ip_verifies, set_checksum_verifies_icmp, fill_checksum_outside,
}
use natporte.Filter.{Config}
use natporte.Fragment.{
  FnPacket, copy_bytes, zeros, tmp_size, fn_message, is_quotable, last_addr, mk_fn_packet,
}
use natporte.Fragment.Frame.{checksum_ip_outside, checksum_ip-IsBytes, copy_bytes_start}
use natporte.Fragment.Quote.{
  blank, quoted, blank_first, blank_to, blank_mtu, blank_same, quoted_eq, quoted-IsBytes,
  quoted_before, quoted_content,
}
use natporte.Fragment.Sums.{checksum-same}

-- The message `m` that answers the packet `b`.
pub record Answers (c : Config) (b m : Bytes) : Type 0 where
  pub header_sum : checksum m 0 20 0 ≡ 0
  pub message_sum : checksum m 20 36 0 ≡ 0
  pub first : (m 0 ≡ 0x45) × (ip_p m 0 ≡ ipproto_icmp)
  pub type_code : (m 20 ≡ 3) × (m 21 ≡ 4)
  pub to : ip_dst m 0 ≡ ip_src b 0
  pub next_mtu : load16 m 26 ≡ htons (c.wan_if_mtu - 50)
  pub ends : (ip_src m 28 ≡ ip_src b 0) × (ip_dst m 28 ≡ ip_dst b 0) × (ip_p m 28 ≡ ip_p b 0)
  pub ports : (ip_p b 0 ≡ ipproto_tcp) ⊎ (ip_p b 0 ≡ ipproto_udp) → load32 m 48 ≡ load32 b (l4 b 0)
  pub echo : ip_p b 0 ≡ ipproto_icmp → load32 m 52 ≡ load32 b (l4 b 0 + 4)

module _ (c : Config) (id : ℕ) (b : Bytes) (a : ℕ) (bytes : IsBytes b) where
  abbrev framed : Bytes
  framed = checksum_ip (quoted c id b a bytes) 0

  framed_before : (j : ℕ) → j < 10 → framed j ≡ blank c id b a bytes j
  framed_before j h =
      checksum_ip_outside (quoted c id b a bytes) 0 j (inl (omega arith))
      ∙ quoted_before c id b a bytes j (inl (omega arith)) (omega arith)

  framed-IsBytes : IsBytes framed
  framed-IsBytes = checksum_ip-IsBytes _ 0 (quoted-IsBytes c id b a bytes)

  framed_length : ip_hl framed 0 ≡ 5
  framed_length = omega (arith, framed_before 0 (omega arith), (blank_first c id b a bytes).0)

  framed_protocol : ip_p framed 0 ≡ ipproto_icmp
  framed_protocol = framed_before 9 (omega arith) ∙ (blank_first c id b a bytes).1

  message_eq : fn_message c id b a ≡ set_checksum framed 0 56
  message_eq = unfold fn_message set_checksum in rw (quoted_eq c id b a bytes) refl

  message_outside : (j : ℕ) → j < 22 ⊎ 23 < j → fn_message c id b a j ≡ framed j
  message_outside j h =
      ap (λ (m : Bytes). m j)
        (message_eq
          ∙ icmp_filled framed 0 56 (omega (arith, framed_length)) (omega arith) framed_protocol)
      ∙ fill_checksum_outside framed _ _ _ _ j (ground (arith, framed_length))

  -- Away from the three checksums outside the quotation, the message is what was laid out.
  message_before :
      (j : ℕ)
      → j < 10 ⊎ 11 < j
      → j < 22 ⊎ 23 < j
      → j < 38 ⊎ 39 < j
      → j < 48
      → fn_message c id b a j ≡ blank c id b a bytes j
  message_before j h k l m =
      message_outside j k
      ∙ checksum_ip_outside (quoted c id b a bytes) 0 j (ground arith)
      ∙ quoted_before c id b a bytes j l m

  message_content :
      (k : ℕ)
      → k < 8
      → (ip_p b 0 ≡ ipproto_tcp)
        ⊎ ((ip_p b 0 ≡ ipproto_udp) × (k < 6))
        ⊎ ((ip_p b 0 ≡ ipproto_icmp) × (4 ≤ k))
      → fn_message c id b a (48 + k) ≡ b (l4 b 0 + k)
  message_content k h p =
      message_outside (48 + k) (inr (omega arith))
      ∙ checksum_ip_outside (quoted c id b a bytes) 0 (48 + k) (inr (omega arith))
      ∙ quoted_content c id b a bytes k h p

  header_verifies : checksum (fn_message c id b a) 0 20 0 ≡ 0
  header_verifies =
      checksum-same framed (fn_message c id b a) 0 20 0
        (λ j h k. message_outside j (inl (omega arith)))
      ∙ verified
    where
      length : ip_hl (quoted c id b a bytes) 0 ≡ 5
      length = omega (
        arith,
        quoted_before c id b a bytes 0 (inl (omega arith)) (omega arith),
        (blank_first c id b a bytes).0,
      )

      verified : checksum framed 0 20 0 ≡ 0
      verified =
          ap (λ (n : ℕ). checksum framed 0 (n * 4) 0) {x = 5} {y = ip_hl (quoted c id b a bytes) 0}
            (omega (arith, length))
          ∙ (checksum_ip_verifies (quoted c id b a bytes) (quoted-IsBytes c id b a bytes) 0
              (omega (arith, length))).0

  message_verifies : checksum (fn_message c id b a) 20 36 0 ≡ 0
  message_verifies = rw message_eq (
      ap (λ (n : ℕ). checksum (set_checksum framed 0 56) (0 + n * 4) (56 - n * 4) 0) {x = 5}
        {y = ip_hl framed 0} (omega (arith, framed_length))
      ∙ set_checksum_verifies_icmp framed framed-IsBytes 0 56 (omega (arith, framed_length))
          (omega arith) framed_protocol)

  message_inner :
      (j k : ℕ) → j ≡ 28 + k → 4 ≤ k → k < 20 → k < 10 ⊎ 11 < k → fn_message c id b a j ≡ b k
  message_inner j k e h l m =
      ap (fn_message c id b a) e
      ∙ message_before (28 + k) (inr (omega arith)) (inr (omega arith)) (ground arith) (omega arith)
      ∙ blank_same c id b a bytes k l (omega arith) (omega arith) (omega arith)

  ends_before :
      (k : ℕ)
      → k < 4
      → (ip_p b 0 ≡ ipproto_tcp) ⊎ (ip_p b 0 ≡ ipproto_udp)
      → (ip_p b 0 ≡ ipproto_tcp)
        ⊎ ((ip_p b 0 ≡ ipproto_udp) × (k < 6))
        ⊎ ((ip_p b 0 ≡ ipproto_icmp) × (4 ≤ k))
  ends_before k h p = ground arith

  echo_byte :
      ip_p b 0 ≡ ipproto_icmp → (k : ℕ) → k < 4 → fn_message c id b a (52 + k) ≡ b (l4 b 0 + 4 + k)
  echo_byte icmp k h =
      ap (fn_message c id b a) {y = 48 + (4 + k)} (omega arith)
      ∙ message_content (4 + k) (omega arith) (inr (inr (icmp, omega arith)))
      ∙ ap b (omega arith)

  message-Answers : 50 ≤ c.wan_if_mtu → Answers c b (fn_message c id b a)
  message-Answers large = record {
    header_sum = header_verifies;
    message_sum = message_verifies;
    first = (
      message_before 0 (inl (omega arith)) (inl (omega arith)) (inl (omega arith)) (omega arith)
          ∙ (blank_first c id b a bytes).0,
      message_before 9 (inl (omega arith)) (inl (omega arith)) (inl (omega arith)) (omega arith)
          ∙ (blank_first c id b a bytes).1,
    );
    type_code = (
      message_before 20 (inr (omega arith)) (inl (omega arith)) (inl (omega arith)) (omega arith)
          ∙ (blank_first c id b a bytes).2,
      message_before 21 (inr (omega arith)) (inl (omega arith)) (inl (omega arith)) (omega arith)
          ∙ (blank_first c id b a bytes).3,
    );
    to =
        load32-same (blank c id b a bytes) (fn_message c id b a) 16 (λ j h k.
          message_before j (inr (omega arith)) (inl (omega arith)) (inl (omega arith))
            (omega arith))
        ∙ blank_to c id b a bytes;
    next_mtu =
        load16-same (blank c id b a bytes) (fn_message c id b a) 26 (λ j h k.
          message_before j (inr (omega arith)) (inr (omega arith)) (inl (omega arith))
            (omega arith))
        ∙ blank_mtu c id b a bytes large;
    ends = (
      load32-moved b (fn_message c id b a) 40 12 (λ k h.
          message_inner (40 + k) (12 + k) (omega arith) (omega arith) (omega arith)
            (inr (omega arith))),
      load32-moved b (fn_message c id b a) 44 16 (λ k h.
          message_inner (44 + k) (16 + k) (omega arith) (omega arith) (omega arith)
            (inr (omega arith))),
      message_inner 37 9 refl (omega arith) (omega arith) (inl (omega arith)),
    );
    ports = λ p.
        load32-moved b (fn_message c id b a) 48 (l4 b 0)
          (λ k h. message_content k (omega arith) (ends_before k (omega arith) p));
    echo = λ p. load32-moved b (fn_message c id b a) 52 (l4 b 0 + 4) (λ k h. echo_byte p k h);
  }

-- Only the first 56 bytes count.
Answers-same :
    (c : Config) (b m m' : Bytes) → ((j : ℕ) → j < 56 → m' j ≡ m j) → Answers c b m → Answers c b m'
Answers-same c b m m' same w = record {
  header_sum = checksum-same m m' 0 20 0 (λ j h k. same j (omega arith)) ∙ w.header_sum;
  message_sum = checksum-same m m' 20 36 0 (λ j h k. same j (omega arith)) ∙ w.message_sum;
  first = (same 0 (omega arith) ∙ w.first.0, same 9 (omega arith) ∙ w.first.1);
  type_code = (same 20 (omega arith) ∙ w.type_code.0, same 21 (omega arith) ∙ w.type_code.1);
  to = field32 16 (omega arith) ∙ w.to;
  next_mtu = load16-same m m' 26 (λ j h k. same j (omega arith)) ∙ w.next_mtu;
  ends = (
    field32 40 (omega arith) ∙ w.ends.0,
    field32 44 (omega arith) ∙ w.ends.1,
    same 37 (omega arith) ∙ w.ends.2,
  );
  ports = λ p. field32 48 (omega arith) ∙ w.ports p;
  echo = λ p. field32 52 (omega arith) ∙ w.echo p;
}
  where
    field32 : (i : ℕ) → i ≤ 52 → load32 m' i ≡ load32 m i
    field32 i h = load32-same m m' i (λ j k l. same j (omega arith))

-- For a TCP, UDP or ICMP packet, with an address of the LAN interface and a WAN interface size
-- of at least 50, `mk_fn_packet` makes a message of 56 bytes for the packet's sender: an ICMP
-- message "fragmentation needed" whose header and message checksums verify, with the interface
-- size less 50 as the next MTU, and it quotes the packet's addresses, its protocol, and its
-- ports or its echo identifier and sequence number.
pub mk_fn_packet-Answers :
    (c : Config) (id : ℕ) (b : Bytes) (size a : ℕ)
    → IsBytes b
    → last_addr c.lan_addr ≡ some a
    → is_quotable (ip_p b 0) ≡ true
    → 50 ≤ c.wan_if_mtu
    → (r : FnPacket) × (mk_fn_packet c id b size ≡ some r)
      × (r.size ≡ 56)
      × (r.id ≡ (id + 1) % 2 ^ 16)
      × Answers c b r.buf
unfolding mk_fn_packet
mk_fn_packet-Answers c id b size a bytes last quotable large =
    let m = fn_message c (u16 (id + 1)) b a in
    let r : FnPacket = record {
      size = tmp_size;
      buf = copy_bytes (copy_bytes b 0 zeros 0 size) 0 m 0 tmp_size;
      id = u16 (id + 1);
    } in
    (
      r,
      rw (last, quotable, mk_fn_packet),
      refl,
      refl,
      Answers-same c b m r.buf (λ j h. copy_bytes_start (copy_bytes b 0 zeros 0 size) m 56 j h)
          (message-Answers c (u16 (id + 1)) b a bytes large),
    )

-- A packet of another protocol comes back whole, with size 0.
pub mk_fn_packet_empty :
    (c : Config) (id : ℕ) (b : Bytes) (size a : ℕ)
    → last_addr c.lan_addr ≡ some a
    → is_quotable (ip_p b 0) ≡ false
    → mk_fn_packet c id b size ≡ some (record { size = 0; buf = b; id = (id + 1) % 2 ^ 16 })
unfolding mk_fn_packet
mk_fn_packet_empty c id b size a last other = rw (last, other, mk_fn_packet)
