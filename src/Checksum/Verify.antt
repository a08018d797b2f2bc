-- ===== src/Checksum/Verify.antt =====
-- What a receiver computes over a header or segment whose checksum the program has filled in.
use natporte.Base.{
  ℕ, ◌+◌, ◌-◌, ◌*◌, ◌^◌, ◌≤◌, ◌<◌, ◌≡◌, refl, ap, ◌∙◌, Bytes, IsBytes, store16, bit_or-add, inl,
  inr, ==_iff, ==_ne, htons, htons-lt, htons-htons, arith, store16_outside, store16-IsBytes,
  load16-store16_self, ◌⊎◌,
}
use natporte.Packet.{ip_hl, ip_p, l4, ipproto_tcp, ipproto_udp, ipproto_icmp}
use natporte.Checksum.{
  fold, checksum, checksum_ip, fill_checksum, pseudo_sum, segment_size, checksum_transport,
  set_checksum,
}
use natporte.Checksum.Fold.{fold-IsFolded}
use natporte.Checksum.Sum.{word_sum, checksum-word_sum, word_sum-store16}

-- Complementing a folded sum and adding it in makes the whole fold to all ones.
complement_folds : (sum : ℕ) → fold (sum + (0xffff - fold sum)) ≡ 0xffff
complement_folds sum =
    let f = fold-IsFolded sum in
    let g = fold-IsFolded (sum + (0xffff - fold sum)) in
    ground (arith, f.fits, f.rest, f.zero_iff.1, g.fits, g.rest, g.zero_iff.0)

htons_zero : htons 0 ≡ 0
unfolding htons
htons_zero = refl

-- A filled field, at an even offset of the segment, makes the receiver's sum come out as 0.
pub fill_checksum_verifies :
    (b : Bytes)
    → IsBytes b
    → (i n adjust k : ℕ) → 2 * k + 1 < n
    → n ≤ 0xffff
    → adjust ≤ 2 ^ 20
    → checksum (fill_checksum b i n adjust (i + 2 * k)) i n adjust ≡ 0
unfolding fill_checksum
fill_checksum_verifies b bytes i n adjust k inside hn ha =
    let f : ℕ = i + 2 * k in
    let b0 : Bytes = store16 b f 0 in
    let bytes0 : IsBytes b0 = store16-IsBytes b f 0 bytes in
    let c : ℕ = checksum b0 i n adjust in
    let total : ℕ = word_sum b0 i n + adjust in
    let c_eq : c ≡ 0xffff - fold total = checksum-word_sum b0 bytes0 i n adjust hn ha in
    let stored : word_sum (store16 b0 f (htons c)) i n ≡ word_sum b0 i n + c = omega (
      arith,
      word_sum-store16 b0 bytes0 i n k f (htons c) refl inside (htons-lt c),
      ap htons (load16-store16_self b f 0 (omega arith)),
      htons_zero,
      htons-htons c (omega arith),
    ) in
    checksum-word_sum (store16 b0 f (htons c)) (store16-IsBytes b0 f (htons c) bytes0) i n adjust hn
      ha
    ∙ omega (
      arith,
      ap fold {x = word_sum (store16 b0 f (htons c)) i n + adjust}
          {y = total + (0xffff - fold total)} (omega arith),
      complement_folds total,
    )

-- What `fill_checksum` leaves alone.
pub fill_checksum_outside :
    (b : Bytes) (i n adjust f j : ℕ) → j < f ⊎ f + 1 < j → fill_checksum b i n adjust f j ≡ b j
unfolding fill_checksum
fill_checksum_outside b i n adjust f j h =
    let b0 : Bytes = store16 b f 0 in
    store16_outside b0 f (htons (checksum b0 i n adjust)) j (ground arith) (ground arith)
    ∙ store16_outside b f 0 j (ground arith) (ground arith)

-- After `checksum_ip` on an IP header of at least 12 bytes, the header's one's complement sum is
-- 0, as a receiver checks it, and no byte outside the checksum field has changed.
pub checksum_ip_verifies :
    (b : Bytes)
    → IsBytes b
    → (at : ℕ) → 3 ≤ ip_hl b at
    → (checksum (checksum_ip b at) at (ip_hl b at * 4) 0 ≡ 0)
      × ((j : ℕ) → j < at + 10 ⊎ at + 11 < j → checksum_ip b at j ≡ b j)
checksum_ip_verifies b bytes at long =
    let n : ℕ = ip_hl b at * 4 in
    (
      rw (filled b at)
          (fill_checksum_verifies b bytes at n 0 5 (omega arith) (omega arith) (omega arith)),
      λ j h. rw (filled b at) (fill_checksum_outside b at n 0 (at + 10) j (ground arith)),
    )
  where
    filled :
        (b : Bytes) (at : ℕ) → checksum_ip b at ≡ fill_checksum b at (ip_hl b at * 4) 0 (at + 10)
    filled b at = unfold checksum_ip fill_checksum in refl

pseudo_sum-le :
    (b : Bytes) (at size : ℕ)
    → IsBytes b
    → ip_hl b at * 4 ≤ size
    → size ≤ 0xffff
    → pseudo_sum b at size ≤ 2 ^ 20
unfolding pseudo_sum
pseudo_sum-le b at size bytes h k = omega (
  arith,
  bit_or-add 8 (b (at + 12)) (b (at + 12 + 1)) (bytes (at + 12 + 1)),
  bit_or-add 8 (b (at + 14)) (b (at + 14 + 1)) (bytes (at + 14 + 1)),
  bit_or-add 8 (b (at + 16)) (b (at + 16 + 1)) (bytes (at + 16 + 1)),
  bit_or-add 8 (b (at + 18)) (b (at + 18 + 1)) (bytes (at + 18 + 1)),
  bytes (at + 12),
  bytes (at + 14),
  bytes (at + 16),
  bytes (at + 18),
  bytes (at + 9),
)

-- The pseudo header lies before the transport header.
pseudo_sum-fill :
    (b : Bytes) (at size l n a f : ℕ)
    → at + 20 ≤ f
    → pseudo_sum (fill_checksum b l n a f) at size ≡ pseudo_sum b at size
unfolding pseudo_sum
pseudo_sum-fill b at size l n a f h =
    let same = λ (j : ℕ) (p : j < at + 20). fill_checksum_outside b l n a f j (inl (omega arith)) in
    rw (
      same (at + 12) (omega arith),
      same (at + 12 + 1) (omega arith),
      same (at + 14) (omega arith),
      same (at + 14 + 1) (omega arith),
      same (at + 16) (omega arith),
      same (at + 16 + 1) (omega arith),
      same (at + 18) (omega arith),
      same (at + 18 + 1) (omega arith),
      same (at + 9) (omega arith),
      same at (omega arith),
    )

-- The three protocols fill one field each.
module _ (b : Bytes) (at size : ℕ) (fits : ip_hl b at * 4 ≤ size) (short : size ≤ 0xffff) where
  abbrev pub segment : ℕ
  segment = size - ip_hl b at * 4

  segment_eq : segment_size b at size ≡ segment
  segment_eq = omega arith

  pub tcp_filled :
      ip_p b at ≡ ipproto_tcp
      → set_checksum b at size
        ≡ fill_checksum b (l4 b at) segment (pseudo_sum b at size) (l4 b at + 16)
  unfolding set_checksum checksum_transport
  tcp_filled e = rw ((==_iff _ _).1 e, segment_eq)

  pub udp_filled :
      ip_p b at ≡ ipproto_udp
      → set_checksum b at size
        ≡ fill_checksum b (l4 b at) segment (pseudo_sum b at size) (l4 b at + 6)
  unfolding set_checksum checksum_transport
  udp_filled e = rw (==_ne (ip_p b at) 6 (omega arith), (==_iff _ _).1 e, segment_eq)

  pub icmp_filled :
      ip_p b at ≡ ipproto_icmp
      → set_checksum b at size ≡ fill_checksum b (l4 b at) segment 0 (l4 b at + 2)
  unfolding set_checksum checksum_transport
  icmp_filled e = rw (
    ==_ne (ip_p b at) 6 (omega arith),
    ==_ne (ip_p b at) 17 (omega arith),
    (==_iff _ _).1 e,
    segment_eq,
  )

-- After `set_checksum` on a TCP or UDP packet of at most 65535 bytes, with an IP header of at
-- least 20 bytes and 18 bytes after it, the one's complement sum over the segment and its pseudo
-- header is 0, as a receiver checks it.
pub set_checksum_verifies :
    (b : Bytes)
    → IsBytes b
    → (at size : ℕ) → 5 ≤ ip_hl b at
    → ip_hl b at * 4 + 18 ≤ size
    → size ≤ 0xffff
    → (ip_p b at ≡ ipproto_tcp) ⊎ (ip_p b at ≡ ipproto_udp)
    → let b' = set_checksum b at size in
      checksum b' (l4 b at) (size - ip_hl b at * 4) (pseudo_sum b' at size) ≡ 0
set_checksum_verifies b bytes at size hl long short (inl tcp) =
    rw
      (
        tcp_filled b at size (omega arith) short tcp,
        pseudo_sum-fill b at size (l4 b at) (size - ip_hl b at * 4) (pseudo_sum b at size)
            (l4 b at + 16) (omega arith),
      )
      (fill_checksum_verifies b bytes (l4 b at) (size - ip_hl b at * 4) (pseudo_sum b at size) 8
        (omega arith) (omega arith) (pseudo_sum-le b at size bytes (omega arith) short))
set_checksum_verifies b bytes at size hl long short (inr udp) =
    rw
      (
        udp_filled b at size (omega arith) short udp,
        pseudo_sum-fill b at size (l4 b at) (size - ip_hl b at * 4) (pseudo_sum b at size)
            (l4 b at + 6) (omega arith),
      )
      (fill_checksum_verifies b bytes (l4 b at) (size - ip_hl b at * 4) (pseudo_sum b at size) 3
        (omega arith) (omega arith) (pseudo_sum-le b at size bytes (omega arith) short))

-- After `set_checksum` on an ICMP packet of at most 65535 bytes, with 4 bytes after its IP
-- header, the one's complement sum over the ICMP message is 0.
pub set_checksum_verifies_icmp :
    (b : Bytes)
    → IsBytes b
    → (at size : ℕ) → ip_hl b at * 4 + 4 ≤ size
    → size ≤ 0xffff
    → ip_p b at ≡ ipproto_icmp
    → checksum (set_checksum b at size) (l4 b at) (size - ip_hl b at * 4) 0 ≡ 0
set_checksum_verifies_icmp b bytes at size long short icmp =
    rw (icmp_filled b at size (omega arith) short icmp) (
      fill_checksum_verifies b bytes (l4 b at) (size - ip_hl b at * 4) 0 1 (omega arith)
        (omega arith) (omega arith))
