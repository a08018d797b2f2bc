-- ===== src/Checksum/Diff.antt =====
-- The incremental update of a checksum (RFC 1624) against the sums that it stands for, and where
-- `set_diff_checksum` loses a carry.
use natporte.Base.{
  ℕ, zero, suc, ◌+◌, ◌*◌, ◌%◌, ◌^◌, ◌≤◌, ◌<◌, ◌≡◌, ◌≢◌, bit_and-ones, arith, leb, ◌==◌,
  if◌then◌else◌, Bool, ◌↔◌, ◌⊎◌, inl, inr, Bytes, IsBytes, load16, load16-lt, load16-store16_self,
  store16, store16_outside, ==_iff, ==_ne,
}
use natporte.Base.Int.{
  ℤ, pos, negsuc, pos_part, neg_part, ◌+ℤ◌, ◌-ℤ◌, +ℤ_parts, -ℤ_parts, parts_disjoint,
}
use natporte.Checksum.{word16, accumulate, close_sum, diff_checksum, set_diff_checksum}
use natporte.Packet.{ip_p, l4, th_sum_at, uh_sum_at, ipproto_tcp, ipproto_udp}

-- The words `i` to `i + n - 1` of a `uint64_t`, added up.
abbrev pub words : ℕ → ℕ → ℕ → ℕ
words x i zero = 0
words x i (suc n) = word16 x i + words x (i + 1) n

words-le : (x i n : ℕ) → words x i n ≤ 0xffff * n
words-le x i zero = omega arith
words-le x i (suc n) = omega (arith, words-le x (i + 1) n)

-- The loop adds the words of `orig` and subtracts those of `alias`.
accumulate_parts :
    (orig alias n i : ℕ) (acc : ℤ)
    → pos_part (accumulate orig alias n i acc) + neg_part acc + words alias i n
      ≡ neg_part (accumulate orig alias n i acc) + pos_part acc + words orig i n
unfolding accumulate
accumulate_parts orig alias zero i acc = omega arith
accumulate_parts orig alias (suc n) i acc =
    let mid : ℤ = acc -ℤ pos (word16 alias i) in
    omega (
      arith,
      accumulate_parts orig alias n (i + 1) (mid +ℤ pos (word16 orig i)),
      +ℤ_parts mid (pos (word16 orig i)),
      -ℤ_parts acc (pos (word16 alias i)),
    )

-- Closing folds the sum to 16 bits and keeps it modulo 65535.
close_sum_mod :
    (z : ℤ)
    → pos_part z < 2 ^ 20
    → neg_part z < 2 ^ 20
    → (close_sum z < 2 ^ 16) × ((close_sum z + neg_part z) % 65535 ≡ pos_part z % 65535)
close_sum_mod (pos a) h k = (omega arith, omega (arith, bit_and-ones 16 a))
close_sum_mod (negsuc a) h k = (omega arith, omega (arith, bit_and-ones 16 (a + 1)))

-- For a 16-bit checksum and at most 4 words, `diff_checksum` returns 16 bits that, modulo 65535,
-- are the old checksum with the words of `orig` added and those of `alias` taken off.
pub diff_checksum_mod :
    (base orig alias n : ℕ)
    → base < 2 ^ 16
    → n ≤ 4
    → let r = diff_checksum base orig alias n in
      (r < 2 ^ 16) × ((r + words alias 0 n) % 65535 ≡ (base + words orig 0 n) % 65535)
unfolding diff_checksum
diff_checksum_mod base orig alias n hb hn =
    let z : ℤ = accumulate orig alias n 0 (pos base) in
    let parts = accumulate_parts orig alias n 0 (pos base) in
    let low = words-le orig 0 n in
    let high = words-le alias 0 n in
    let closed =
      close_sum_mod z (ground (arith, parts, low, parts_disjoint z))
        (ground (arith, parts, high, parts_disjoint z)) in
    (closed.0, omega (arith, closed.1, parts))

-- Two words make up a 32-bit number modulo 65535; a carry out of 32 bits is lost.
words_of_sum :
    (x : ℕ)
    → x < 2 ^ 32 + 2 ^ 16
    → (words x 0 2 + (if leb (2 ^ 32) x then 1 else 0)) % 65535 ≡ x % 65535
words_of_sum x h = ground arith

-- An address and a port together stay below `2 ^ 32 + 2 ^ 16`.
abbrev pub carry : ℕ → ℕ → Bool
carry ip port = leb (2 ^ 32) (ip + port)

-- The value `set_diff_checksum` stores: right exactly when address and port overflow 32 bits
-- both before and after the translation, or neither. Right means that the checksum field plus the
-- translated fields is unchanged modulo 65535.
pub diff_checksum-right_iff :
    (base oip oport aip aport : ℕ)
    → base < 2 ^ 16
    → oip < 2 ^ 32
    → oport < 2 ^ 16
    → aip < 2 ^ 32
    → aport < 2 ^ 16
    → let r = diff_checksum base (oip + oport) (aip + aport) 2 in
      ((r + aip + aport) % 65535 ≡ (base + oip + oport) % 65535)
      ↔ (carry oip oport ≡ carry aip aport)
diff_checksum-right_iff base oip oport aip aport hb ho hop ha hap = ground (
  arith,
  diff_checksum_mod base (oip + oport) (aip + aport) 2 hb (omega arith),
  words_of_sum (oip + oport) (omega arith),
  words_of_sum (aip + aport) (omega arith),
)

-- Where the transport checksum of a TCP or UDP packet stands.
abbrev pub sum_field : Bytes → ℕ → ℕ
sum_field b at = if ip_p b at == ipproto_tcp then th_sum_at (l4 b at) else uh_sum_at (l4 b at)

patched :
    (b : Bytes) (at oip oport aip aport : ℕ)
    → (ip_p b at ≡ ipproto_tcp) ⊎ (ip_p b at ≡ ipproto_udp)
    → set_diff_checksum b at oip oport aip aport
      ≡ store16 b
          (sum_field b at)
          (diff_checksum (load16 b (sum_field b at)) (oip + oport) (aip + aport) 2)
unfolding set_diff_checksum
patched b at oip oport aip aport (inl tcp) = rw ((==_iff _ _).1 tcp)
patched b at oip oport aip aport (inr udp) =
    rw (==_ne (ip_p b at) ipproto_tcp (omega arith), (==_iff _ _).1 udp)

-- `set_diff_checksum` on a TCP or UDP packet, with ports and addresses of their widths, changes
-- no byte but those of the transport checksum, and the new checksum plus the new address and
-- port is the old one plus the old address and port modulo 65535 exactly when address plus port
-- overflows 32 bits both before and after the translation, or neither.
pub set_diff_checksum-right_iff :
    (b : Bytes)
    → IsBytes b
    → (at oip oport aip aport : ℕ) → oip < 2 ^ 32
    → oport < 2 ^ 16
    → aip < 2 ^ 32
    → aport < 2 ^ 16
    → (ip_p b at ≡ ipproto_tcp) ⊎ (ip_p b at ≡ ipproto_udp)
    → let f = sum_field b at in
      let b' = set_diff_checksum b at oip oport aip aport in
      (((load16 b' f + aip + aport) % 65535 ≡ (load16 b f + oip + oport) % 65535)
        ↔ (carry oip oport ≡ carry aip aport))
      × ((j : ℕ) → j ≢ f → j ≢ f + 1 → b' j ≡ b j)
set_diff_checksum-right_iff b bytes at oip oport aip aport ho hop ha hap proto =
    let f : ℕ = sum_field b at in
    let r : ℕ = diff_checksum (load16 b f) (oip + oport) (aip + aport) 2 in
    rw (patched b at oip oport aip aport proto) (
      rw
          (load16-store16_self b f r
            (diff_checksum_mod (load16 b f) (oip + oport) (aip + aport) 2 (load16-lt b f bytes)
              (omega arith)).0)
          (diff_checksum-right_iff (load16 b f) oip oport aip aport (load16-lt b f bytes) ho hop ha
            hap),
      λ j p q. store16_outside b f r j p q,
    )
