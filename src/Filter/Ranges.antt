-- ===== src/Filter/Ranges.antt =====
-- The masks of the address classes as ranges of addresses, and what `chk_drop` lets pass.
use natporte.Base.{
  ℕ, ◌+◌, ◌*◌, ◌^◌, ◌≤◌, ◌<◌, ◌≡◌, ◌≢◌, ◌↔◌, ◌⊎◌, true, false, bit_and-field, htonl, htonl-lt,
  arith,
}
use natporte.Codes.{from_lan2wan, from_wan2lan}
use natporte.Filter.{is_class_d, is_loopback, is_local, is_private, chk_drop}

-- The address `a.b.c.d` in host order.
abbrev pub ip4 : ℕ → ℕ → ℕ → ℕ → ℕ
ip4 a b c d = ((a * 256 + b) * 256 + c) * 256 + d

-- `i` is one of the addresses from `lo` to `hi`.
abbrev pub Between : ℕ → ℕ → ℕ → Type 0
Between lo hi i = (lo ≤ i) × (i ≤ hi)

-- 10.0.0.0/8, 172.16.0.0/12, 192.168.0.0/16 or 100.64.0.0/10.
abbrev pub Private : ℕ → Type 0
Private i =
    Between (ip4 10 0 0 0) (ip4 10 255 255 255) i
    ⊎ Between (ip4 172 16 0 0) (ip4 172 31 255 255) i
    ⊎ Between (ip4 192 168 0 0) (ip4 192 168 255 255) i
    ⊎ Between (ip4 100 64 0 0) (ip4 100 127 255 255) i

module _ (i : ℕ) (word : i < 2 ^ 32) where
  is_private_iff : (is_private i ≡ true) ↔ Private i
  unfolding is_private
  is_private_iff = ground (
    arith,
    bit_and-field 24 8 i,
    bit_and-field 20 12 i,
    bit_and-field 16 16 i,
    bit_and-field 22 10 i,
  )

  is_class_d_iff : (is_class_d i ≡ true) ↔ Between (ip4 224 0 0 0) (ip4 239 255 255 255) i
  unfolding is_class_d
  is_class_d_iff = ground (arith, bit_and-field 28 4 i)

  is_loopback_iff : (is_loopback i ≡ true) ↔ Between (ip4 127 0 0 0) (ip4 127 255 255 255) i
  unfolding is_loopback
  is_loopback_iff = ground (arith, bit_and-field 24 8 i)

  is_local_iff : (is_local i ≡ true) ↔ Between (ip4 169 254 0 0) (ip4 169 254 255 255) i
  unfolding is_local
  is_local_iff = ground (arith, bit_and-field 16 16 i)

-- From the LAN, `chk_drop` lets exactly the packets pass that go from a private address to an
-- address that is neither 0.0.0.0 nor multicast.
pub chk_drop-lan2wan_iff :
    (src dst : ℕ)
    → (chk_drop src dst from_lan2wan ≡ false) ↔ (
        Private (htonl src)
        × (htonl dst ≢ 0)
        × ((htonl dst < ip4 224 0 0 0) ⊎ (ip4 239 255 255 255 < htonl dst)))
unfolding chk_drop
chk_drop-lan2wan_iff src dst = ground (
  arith,
  htonl-lt src,
  htonl-lt dst,
  is_private_iff (htonl src) (htonl-lt src),
  is_class_d_iff (htonl dst) (htonl-lt dst),
)

-- From the WAN, `chk_drop` lets exactly the packets pass whose source is not 0.0.0.0 and whose
-- destination is neither 0.0.0.0 nor link-local, multicast or loopback.
pub chk_drop-wan2lan_iff :
    (src dst : ℕ)
    → (chk_drop src dst from_wan2lan ≡ false) ↔ (
        (htonl src ≢ 0)
        × (htonl dst ≢ 0)
        × ((htonl dst < ip4 169 254 0 0) ⊎ (ip4 169 254 255 255 < htonl dst))
        × ((htonl dst < ip4 224 0 0 0) ⊎ (ip4 239 255 255 255 < htonl dst))
        × ((htonl dst < ip4 127 0 0 0) ⊎ (ip4 127 255 255 255 < htonl dst)))
unfolding chk_drop
chk_drop-wan2lan_iff src dst = ground (
  arith,
  is_local_iff (htonl dst) (htonl-lt dst),
  is_class_d_iff (htonl dst) (htonl-lt dst),
  is_loopback_iff (htonl dst) (htonl-lt dst),
)
