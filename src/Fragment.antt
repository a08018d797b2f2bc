-- ===== src/Fragment.antt =====
-- src/alias.h: `mk_fn_packet`, the ICMP message "fragmentation needed" (RFC 1191) that takes the
-- place of a packet too big for the next interface.
pub mod Frame
pub mod Quote
pub mod Sums
pub mod Message
mod Examples
use natporte.Base.{
  ℕ, ◌+◌, ◌-◌, ◌*◌, ◌/◌, ◌^◌, leb, ltb, ◌==◌, if◌then◌else◌, ◌&&◌, ◌||◌, Bool, Option, none, some,
  List, [], ◌∷◌, u16, htons, htonl, Bytes, from_list, load16, store8, store16, store32,
}
use natporte.Packet.{ip_hl, ip_p, ip_src, l4, ipproto_icmp, ipproto_tcp, ipproto_udp}
use natporte.Checksum.{checksum_ip, checksum_transport}
use natporte.Filter.{Config}

-- `memcpy(dst + i, src + j, n)`.
unfoldable pub copy_bytes : Bytes → ℕ → Bytes → ℕ → ℕ → Bytes
copy_bytes dst i src j n k = if leb i k && ltb k (i + n) then src (j + (k - i)) else dst k

abbrev pub zeros : Bytes
zeros i = 0

abbrev pub sample_ip : List ℕ
sample_ip =
    0x45 ∷ 0 ∷ 0 ∷ 0 ∷ 0 ∷ 0 ∷ 0 ∷ 0 ∷ 0xff ∷ 0x01 ∷ 0 ∷ 0 ∷ 0 ∷ 0 ∷ 0 ∷ 0 ∷ 0 ∷ 0 ∷ 0 ∷ 0 ∷ []

abbrev pub sample_icmp : List ℕ
sample_icmp = 0x03 ∷ 0x04 ∷ 0 ∷ 0 ∷ []

abbrev pub sample_subicmp : List ℕ
sample_subicmp = 0 ∷ 0 ∷ 0x05 ∷ 0xdc ∷ []

-- An IP header, the ICMP header, `struct subhdr` and `struct exthdr`: 20 + 4 + 4 + 28 bytes.
abbrev pub tmp_size : ℕ
tmp_size = 56

-- `lan_addr.at(lan_addr.size() - 1)`, which throws when there is no address.
unfoldable pub last_addr : List ℕ → Option ℕ
last_addr [] = none
last_addr (a ∷ []) = some a
last_addr (a ∷ x ∷ rest) = last_addr (x ∷ rest)

-- The new IP header, ICMP header and next MTU. `wan_if_mtu - 50` is a `size_t`.
unfoldable pub fn_headers : Config → ℕ → Bytes → ℕ → Bytes
unfolding copy_bytes
fn_headers c id b local_addr =
    let t = copy_bytes zeros 0 (from_list sample_ip) 0 20 in
    let t = store16 t 2 (htons tmp_size) in
    let t = store16 t 4 (htons id) in
    let t = store32 t 16 (ip_src b 0) in
    let t = store32 t 12 (htonl local_addr) in
    let t = copy_bytes t 20 (from_list sample_icmp) 0 4 in
    let t = copy_bytes t 24 (from_list sample_subicmp) 0 4 in
    store16 t 26 (htons (c.wan_if_mtu + 2 ^ 64 - 50))

-- The packet's own IP header without its options, at 28. The words that are dropped are taken off
-- the length as it stands in network order.
unfoldable pub fn_inner_header : Bytes → Bytes → Bytes
unfolding copy_bytes
fn_inner_header t b =
    let t = copy_bytes t 28 b 0 20 in
    let t = store8 t 28 (t 28 / 16 * 16 + 5) in
    store16 t 30 (u16 (load16 t 30 + 2 ^ 16 + 5 - ip_hl b 0))

-- The first eight bytes after the packet's IP header, at 48, and the checksums of the quotation.
unfoldable pub fn_content : Bytes → Bytes → Bytes
unfolding copy_bytes
fn_content t b =
    let t = copy_bytes t 48 b (l4 b 0) 8 in let t = checksum_ip t 28 in checksum_transport t 28 28

-- The whole message in `tmp`.
unfoldable pub fn_message : Config → ℕ → Bytes → ℕ → Bytes
unfolding fn_headers fn_inner_header fn_content
fn_message c id b local_addr =
    let t = fn_content (fn_inner_header (fn_headers c id b local_addr) b) b in
    let t = checksum_ip t 0 in checksum_transport t 0 tmp_size

-- The size that is returned, the packet, and the static counter afterwards.
pub record FnPacket : Type 0 where
  pub size : ℕ
  pub buf : Bytes
  pub id : ℕ

unfoldable pub is_quotable : ℕ → Bool
is_quotable p = p == ipproto_tcp || p == ipproto_udp || p == ipproto_icmp

-- `none` is the exception.
unfoldable pub mk_fn_packet : Config → ℕ → Bytes → ℕ → Option FnPacket
unfolding fn_message last_addr copy_bytes is_quotable
mk_fn_packet c id b size =
    let id = u16 (id + 1) in
    elim (last_addr c.lan_addr) [
      | none ↦ none
      | some local_addr ↦ some (
          if is_quotable (ip_p b 0)
          then record {
            size = tmp_size;
            buf =
                copy_bytes (copy_bytes b 0 zeros 0 size) 0 (fn_message c id b local_addr) 0
                  tmp_size;
            id = id;
          }
          else record { size = 0; buf = b; id = id })
    ]
