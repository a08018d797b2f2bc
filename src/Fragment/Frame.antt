-- ===== src/Fragment/Frame.antt =====
-- src/alias.h: what `mk_fn_packet` puts where, before and after the checksums.
use natporte.Base.{
  ℕ, ◌+◌, ◌-◌, ◌*◌, ◌^◌, ◌≤◌, ◌<◌, ◌≡◌, ◌∙◌, ◌⊎◌, inl, Bytes, IsBytes, htons, htonl,
  from_list-IsBytes, from_list, store8-IsBytes, store16-IsBytes, store32-IsBytes, arith,
  store16_outside, store16,
}
use natporte.Packet.{ip_hl, ip_src, l4}
use natporte.Checksum.{
  checksum_ip, checksum_transport, fill_checksum, checksum, pseudo_sum, segment_size,
}
use natporte.Checksum.Verify.{fill_checksum_outside}
use natporte.Filter.{Config}
use natporte.Fragment.{
  copy_bytes, zeros, sample_ip, sample_icmp, sample_subicmp, tmp_size, fn_headers, fn_inner_header,
}

pub copy_bytes-IsBytes :
    (dst src : Bytes) (i j n : ℕ) → IsBytes dst → IsBytes src → IsBytes (copy_bytes dst i src j n)
unfolding copy_bytes
copy_bytes-IsBytes dst src i j n hd hs k = ground (arith, hd k, hs (j + (k - i)))

pub copy_bytes_outside :
    (dst src : Bytes) (i j n k : ℕ) → k < i ⊎ i + n ≤ k → copy_bytes dst i src j n k ≡ dst k
unfolding copy_bytes
copy_bytes_outside dst src i j n k h = ground arith

pub copy_bytes_inside :
    (dst src : Bytes) (i j n k : ℕ) → k < n → copy_bytes dst i src j n (i + k) ≡ src (j + k)
unfolding copy_bytes
copy_bytes_inside dst src i j n k h = ground arith

pub copy_bytes_start : (dst src : Bytes) (n k : ℕ) → k < n → copy_bytes dst 0 src 0 n k ≡ src k
unfolding copy_bytes
copy_bytes_start dst src n k h = ground arith

store_twice : (b : Bytes) (f v w j : ℕ) → j < f ⊎ f + 1 < j → store16 (store16 b f v) f w j ≡ b j
store_twice b f v w j h =
    store16_outside (store16 b f v) f w j (ground arith) (ground arith)
    ∙ store16_outside b f v j (ground arith) (ground arith)

-- The checksums change their own fields only.
pub checksum_ip_outside :
    (b : Bytes) (at j : ℕ) → j < at + 10 ⊎ at + 11 < j → checksum_ip b at j ≡ b j
unfolding checksum_ip
checksum_ip_outside b at j h = store_twice b (at + 10) 0 _ j (ground arith)

pub checksum_transport_outside :
    (b : Bytes) (at size j : ℕ) → j < l4 b at → checksum_transport b at size j ≡ b j
unfolding checksum_transport
checksum_transport_outside b at size j h =
    let segment = segment_size b at size in
    ground (
      arith,
      fill_checksum_outside b (l4 b at) segment (pseudo_sum b at size) (l4 b at + 16) j
          (inl (omega arith)),
      fill_checksum_outside b (l4 b at) segment (pseudo_sum b at size) (l4 b at + 6) j
          (inl (omega arith)),
      fill_checksum_outside b (l4 b at) segment 0 (l4 b at + 2) j (inl (omega arith)),
    )

pub fill_checksum-IsBytes :
    (b : Bytes) (i n adjust f : ℕ) → IsBytes b → IsBytes (fill_checksum b i n adjust f)
unfolding fill_checksum
fill_checksum-IsBytes b i n adjust f h =
    let b0 : Bytes = store16 b f 0 in
    store16-IsBytes b0 f (htons (checksum b0 i n adjust)) (store16-IsBytes b f 0 h)

pub checksum_ip-IsBytes : (b : Bytes) (at : ℕ) → IsBytes b → IsBytes (checksum_ip b at)
checksum_ip-IsBytes b at h =
    unfold checksum_ip fill_checksum in fill_checksum-IsBytes b at (ip_hl b at * 4) 0 (at + 10) h

pub checksum_transport-IsBytes :
    (b : Bytes) (at size : ℕ) → IsBytes b → IsBytes (checksum_transport b at size)
unfolding checksum_transport
checksum_transport-IsBytes b at size h j =
    let segment = segment_size b at size in
    ground (
      arith,
      h j,
      fill_checksum-IsBytes b (l4 b at) segment (pseudo_sum b at size) (l4 b at + 16) h j,
      fill_checksum-IsBytes b (l4 b at) segment (pseudo_sum b at size) (l4 b at + 6) h j,
      fill_checksum-IsBytes b (l4 b at) segment 0 (l4 b at + 2) h j,
    )

zeros-IsBytes : IsBytes zeros
zeros-IsBytes i = omega arith

pub headers-IsBytes : (c : Config) (id : ℕ) (b : Bytes) (a : ℕ) → IsBytes (fn_headers c id b a)
unfolding fn_headers
headers-IsBytes c id b a =
    let t0 =
      copy_bytes-IsBytes zeros (from_list sample_ip) 0 0 20 zeros-IsBytes
        (from_list-IsBytes sample_ip (omega arith)) in
    let t1 = store16-IsBytes _ 4 (htons id) (store16-IsBytes _ 2 (htons tmp_size) t0) in
    let t2 = store32-IsBytes _ 12 (htonl a) (store32-IsBytes _ 16 (ip_src b 0) t1) in
    let t3 =
      copy_bytes-IsBytes _ (from_list sample_icmp) 20 0 4 t2
        (from_list-IsBytes sample_icmp (omega arith)) in
    let t4 =
      copy_bytes-IsBytes _ (from_list sample_subicmp) 24 0 4 t3
        (from_list-IsBytes sample_subicmp (omega arith)) in
    store16-IsBytes _ 26 (htons (c.wan_if_mtu + 2 ^ 64 - 50)) t4

pub inner-IsBytes : (t b : Bytes) → IsBytes t → IsBytes b → IsBytes (fn_inner_header t b)
unfolding fn_inner_header
inner-IsBytes t b ht hb =
    store16-IsBytes _ 30 _ (store8-IsBytes _ 28 _ (copy_bytes-IsBytes t b 28 0 20 ht hb))
