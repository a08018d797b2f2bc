-- ===== src/Checksum/Examples.antt =====
-- Checksums of small packets, and the theorems on them.
use natporte.Base.{
  ℕ, ◌+◌, ◌-◌, ◌*◌, ◌%◌, ◌<◌, ◌≡◌, ◌≢◌, refl, ◌↔◌, ◌⊎◌, inr, List, [], ◌∷◌, arith, from_list,
  from_list-IsBytes, load16, store16, htons,
}
use natporte.Packet.{ip_hl, l4}
use natporte.Checksum.{
  checksum, checksum_ip, fill_checksum, set_checksum, pseudo_sum, sum_words, fold,
  set_diff_checksum,
}
use natporte.Checksum.Verify.{fill_checksum_verifies, checksum_ip_verifies, set_checksum_verifies}
use natporte.Checksum.Diff.{carry, sum_field, set_diff_checksum-right_iff}

-- The IP header in the comments of `mk_fn_packet`, its checksum blank.
abbrev header : List ℕ
header =
    0x45 ∷ 0x00 ∷ 0x00 ∷ 0x38 ∷ 0x00 ∷ 0x27 ∷ 0x40 ∷ 0x00 ∷ 0x40 ∷ 0x01 ∷ 0x00 ∷ 0x00 ∷ 0xc0 ∷ 0xa8
    ∷ 0x01 ∷ 0x01 ∷ 0xc0 ∷ 0xa8 ∷ 0x01 ∷ 0x02 ∷ []

-- A UDP datagram of 2 bytes from 192.168.1.1 port 1000 to 8.8.8.8 port 53.
abbrev datagram : List ℕ
datagram =
    0x45 ∷ 0x00 ∷ 0x00 ∷ 0x1e ∷ 0x00 ∷ 0x27 ∷ 0x40 ∷ 0x00 ∷ 0x40 ∷ 0x11 ∷ 0x00 ∷ 0x00 ∷ 0xc0 ∷ 0xa8
    ∷ 0x01 ∷ 0x01 ∷ 0x08 ∷ 0x08 ∷ 0x08 ∷ 0x08 ∷ 0x03 ∷ 0xe8 ∷ 0x00 ∷ 0x35 ∷ 0x00 ∷ 0x0a ∷ 0x00
    ∷ 0x00 ∷ 0xab ∷ 0xcd ∷ 0 ∷ 0 ∷ 0 ∷ 0 ∷ 0 ∷ 0 ∷ 0 ∷ 0 ∷ []

-- The checksum that the comment gives, 0xb74a.
header_sum :
    (checksum_ip (from_list header) 0 10 ≡ 0xb7) × (checksum_ip (from_list header) 0 11 ≡ 0x4a)
unfolding checksum_ip checksum sum_words fold store16 htons
header_sum = (refl, refl)

fill_checksum_verifies_example :
    checksum (fill_checksum (from_list header) 0 20 0 (0 + 2 * 5)) 0 20 0 ≡ 0
fill_checksum_verifies_example =
    fill_checksum_verifies (from_list header) (from_list-IsBytes header (omega arith)) 0 20 0 5
      (omega arith) (omega arith) (omega arith)

checksum_ip_verifies_example :
    (checksum (checksum_ip (from_list header) 0) 0 (5 * 4) 0 ≡ 0)
    × ((j : ℕ) → j < 0 + 10 ⊎ 0 + 11 < j → checksum_ip (from_list header) 0 j ≡ from_list header j)
checksum_ip_verifies_example =
    checksum_ip_verifies (from_list header) (from_list-IsBytes header (omega arith)) 0 (omega arith)

set_checksum_verifies_example :
    let b' = set_checksum (from_list datagram) 0 38 in
    checksum b'
      (l4 (from_list datagram) 0)
      (38 - ip_hl (from_list datagram) 0 * 4)
      (pseudo_sum b' 0 38)
    ≡ 0
set_checksum_verifies_example =
    set_checksum_verifies (from_list datagram) (from_list-IsBytes datagram (omega arith)) 0 38
      (omega arith) (omega arith) (omega arith) (inr refl)

-- The host 10.200.255.255, port 50000, translated to 192.0.2.1 port 4097: the words as a
-- little-endian host reads them. The stored checksum is off by one.
abbrev high_host : ℕ
high_host = 0xffffc80a

set_diff_checksum-right_iff_example :
    let f = sum_field (from_list datagram) 0 in
    let b' = set_diff_checksum (from_list datagram) 0 high_host 0x50c3 0x010200c0 0x0110 in
    (((load16 b' f + 0x010200c0 + 0x0110) % 65535
        ≡ (load16 (from_list datagram) f + high_host + 0x50c3) % 65535)
      ↔ (carry high_host 0x50c3 ≡ carry 0x010200c0 0x0110))
    × ((j : ℕ) → j ≢ f → j ≢ f + 1 → b' j ≡ from_list datagram j)
set_diff_checksum-right_iff_example =
    set_diff_checksum-right_iff (from_list datagram) (from_list-IsBytes datagram (omega arith)) 0
      high_host 0x50c3 0x010200c0 0x0110 (omega arith) (omega arith) (omega arith) (omega arith)
      (inr refl)
