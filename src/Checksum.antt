-- ===== src/Checksum.antt =====
-- The Internet checksum of src/alias.h: the full sum, and the update by a difference.
pub mod Fold
pub mod Sum
pub mod Verify
pub mod Diff
mod Examples
use natporte.Base.{
  ℕ, zero, suc, ◌+◌, ◌-◌, ◌*◌, ◌/◌, ◌%◌, ◌^◌, ◌<◌, ltb, ◌==◌, if◌then◌else◌, u16, u32, htons, Bytes,
  load16, store16, bit_and, bit_or, bit_and-ones, lt_wf, arith,
}
use natporte.Base.Int.{ℤ, pos, negsuc, pos_part, neg_part, ◌+ℤ◌, ◌-ℤ◌}
use natporte.Packet.{
  ip_hl, ip_p, l4, ip_sum_at, th_sum_at, uh_sum_at, icmp_cksum_at, ipproto_tcp, ipproto_udp,
  ipproto_icmp,
}
use mathlib.Core.WellFounded.{Acc}
use mathlib.Core.Logic.{dite}
use native.Mathlib.Decide.{dec_lt}

-- The loop over the 16-bit words in network order, from offset `i` on; an odd last byte is the
-- high half of its word.
unfoldable pub sum_words : Bytes → ℕ → ℕ → ℕ → ℕ
sum_words b i zero sum = sum
sum_words b i (suc zero) sum = u32 (sum + u16 (b i * 2 ^ 8))
sum_words b i (suc (suc n)) sum =
    sum_words b (i + 2) n (u32 (sum + bit_or (u16 (b i * 2 ^ 8)) (b (i + 1))))

pub fold_smaller : (sum : ℕ) → 0xffff < sum → sum / 2 ^ 16 + bit_and sum 0xffff < sum
fold_smaller sum more = omega (arith, bit_and-ones 16 sum)

-- `while (sum > 0xFFFF) sum = (sum >> 16) + (sum & 0xFFFF)`.
unfoldable pub fold_acc : (sum : ℕ) → Acc ◌<◌ sum → ℕ
fold_acc sum (Acc.intro _ smaller) =
    dite (dec_lt 0xffff sum)
      (λ more.
        fold_acc (sum / 2 ^ 16 + bit_and sum 0xffff)
          (smaller (sum / 2 ^ 16 + bit_and sum 0xffff) (fold_smaller sum more)))
      (λ _. sum)

unfoldable pub fold : ℕ → ℕ
unfolding fold_acc lt_wf dec_lt
fold sum = fold_acc sum (lt_wf.apply sum)

unfoldable pub checksum : Bytes → ℕ → ℕ → ℕ → ℕ
checksum b i size adjust = bit_and (2 ^ 32 - 1 - fold (u32 (sum_words b i size 0 + adjust))) 0xffff

-- The IP header's own checksum, stored in network order.
unfoldable pub checksum_ip : Bytes → ℕ → Bytes
checksum_ip b at =
    let header_length = ip_hl b at * 4 in
    let b = store16 b (ip_sum_at at) 0 in
    let cksum = checksum b at header_length 0 in store16 b (ip_sum_at at) (htons cksum)

-- A word of the pseudo header: `(l3_buf[i] << 8) | l3_buf[i + 1]`.
abbrev pub pseudo_word : Bytes → ℕ → ℕ
pseudo_word b i = bit_or (b i * 2 ^ 8) (b (i + 1))

-- `size - (ip_hl << 2)` is a `size_t`.
abbrev pub segment_size : Bytes → ℕ → ℕ → ℕ
segment_size b at size = (size + 2 ^ 64 - ip_hl b at * 4) % 2 ^ 64

unfoldable pub pseudo_sum : Bytes → ℕ → ℕ → ℕ
pseudo_sum b at size = u32 (
    pseudo_word b (at + 12)
    + pseudo_word b (at + 14)
    + pseudo_word b (at + 16)
    + pseudo_word b (at + 18)
    + ip_p b at
    + segment_size b at size)

-- The field at `field` is zeroed, then filled with the sum of the segment and `adjust`.
unfoldable pub fill_checksum : Bytes → ℕ → ℕ → ℕ → ℕ → Bytes
fill_checksum b l4 size adjust field =
    let b = store16 b field 0 in store16 b field (htons (checksum b l4 size adjust))

unfoldable pub checksum_transport : Bytes → ℕ → ℕ → Bytes
checksum_transport b at size =
    let pseudo = pseudo_sum b at size in
    let segment = segment_size b at size in
    let l4 = l4 b at in
    if ip_p b at == ipproto_tcp
    then fill_checksum b l4 segment pseudo (th_sum_at l4)
    else if ip_p b at == ipproto_udp
    then fill_checksum b l4 segment pseudo (uh_sum_at l4)
    else if ip_p b at == ipproto_icmp
    then fill_checksum b l4 segment 0 (icmp_cksum_at l4)
    else b

-- Built without IP_CHECKSUM, as the Makefile does: the kernel fills the IP header's checksum.
unfoldable pub set_checksum : Bytes → ℕ → ℕ → Bytes
set_checksum b at size = checksum_transport b at size

-- The 16-bit word `i` of a `uint64_t` in memory.
abbrev pub word16 : ℕ → ℕ → ℕ
word16 x i = x / 2 ^ (16 * i) % 2 ^ 16

-- The loop with `left` words to go, at word `i`.
unfoldable pub accumulate : ℕ → ℕ → ℕ → ℕ → ℤ → ℤ
accumulate orig alias zero i acc = acc
accumulate orig alias (suc left) i acc =
    accumulate orig alias left (i + 1) (acc -ℤ pos (word16 alias i) +ℤ pos (word16 orig i))

-- The two steps that fold the magnitude of the sum.
abbrev pub fold_twice : ℕ → ℕ
fold_twice a = let a = a / 2 ^ 16 + bit_and a 0xffff in a + a / 2 ^ 16

-- A negative sum is folded by its magnitude and complemented.
abbrev pub close_sum : ℤ → ℕ
close_sum (pos a) = u16 (fold_twice a)
close_sum (negsuc a) = 2 ^ 16 - 1 - u16 (fold_twice (a + 1))

unfoldable pub diff_checksum : ℕ → ℕ → ℕ → ℕ → ℕ
diff_checksum base_sum orig alias word16_length =
    close_sum (accumulate orig alias word16_length 0 (pos base_sum))

-- The transport checksum after `orig_ip`, `orig_port` have become `alias_ip`, `alias_port`. The
-- port is added to the address as a `uint64_t`, and two words of the sum are used.
unfoldable pub set_diff_checksum : Bytes → ℕ → ℕ → ℕ → ℕ → ℕ → Bytes
set_diff_checksum b at orig_ip orig_port alias_ip alias_port =
    let orig = orig_ip + orig_port in
    let alias = alias_ip + alias_port in
    let patch = λ (field : ℕ). store16 b field (diff_checksum (load16 b field) orig alias 2) in
    if ip_p b at == ipproto_tcp
    then patch (th_sum_at (l4 b at))
    else if ip_p b at == ipproto_udp
    then patch (uh_sum_at (l4 b at))
    else b
