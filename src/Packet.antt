-- ===== src/Packet.antt =====
-- The header fields that src/alias.h and src/structure.h read and write through `struct ip`,
-- `struct tcphdr`, `struct udphdr` and `struct icmphdr`: offsets from the header's first byte, of
-- the layouts in RFC 791, 793, 768 and 792. Multi-byte fields are in network order, so a
-- little-endian host sees them swapped. `at` is where the IP header begins.
use natporte.Base.{ℕ, ◌+◌, ◌*◌, ◌/◌, ◌%◌, Bytes, load16, load32}

abbrev pub ipproto_icmp : ℕ
ipproto_icmp = 1

abbrev pub ipproto_tcp : ℕ
ipproto_tcp = 6

abbrev pub ipproto_udp : ℕ
ipproto_udp = 17

module _ (b : Bytes) (at : ℕ) where
  abbrev pub ip_v : ℕ
  ip_v = b at / 16

  abbrev pub ip_hl : ℕ
  ip_hl = b at % 16

  abbrev pub ip_off : ℕ
  ip_off = load16 b (at + 6)

  abbrev pub ip_p : ℕ
  ip_p = b (at + 9)

  abbrev pub ip_src : ℕ
  ip_src = load32 b (at + 12)

  abbrev pub ip_dst : ℕ
  ip_dst = load32 b (at + 16)

  -- `(char*)iphdr + (iphdr->ip_hl << 2)`, where the transport header begins.
  abbrev pub l4 : ℕ
  l4 = at + ip_hl * 4

abbrev pub ip_sum_at : ℕ → ℕ
ip_sum_at at = at + 10

abbrev pub ip_src_at : ℕ → ℕ
ip_src_at at = at + 12

abbrev pub ip_dst_at : ℕ → ℕ
ip_dst_at at = at + 16

-- Ports of TCP and UDP alike, from the transport header on.
abbrev pub sport_at : ℕ → ℕ
sport_at l4 = l4

abbrev pub dport_at : ℕ → ℕ
dport_at l4 = l4 + 2

abbrev pub th_flags_at : ℕ → ℕ
th_flags_at l4 = l4 + 13

abbrev pub th_sum_at : ℕ → ℕ
th_sum_at l4 = l4 + 16

abbrev pub uh_sum_at : ℕ → ℕ
uh_sum_at l4 = l4 + 6

abbrev pub icmp_cksum_at : ℕ → ℕ
icmp_cksum_at l4 = l4 + 2
