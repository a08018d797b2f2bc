-- ===== src/Node/Keys.antt =====
-- The keys as numbers: they hold protocol, port and address, and tell ends apart.
use natporte.Base.{
  ℕ, ◌+◌, ◌*◌, ◌^◌, ◌<◌, ◌≡◌, ◌∙◌, ap₂, sym, ◌↔◌, bit_and, bit_or, bit_and-field, bit_and-ones,
  bit_or-add, arith,
}
use natporte.Node.{
  Endpoint, var, get_protocol_from_var_lan, get_port_from_var_lan, get_ip_from_var_lan,
  protocol_mask, port_mask, ip_mask,
}

-- The members have the widths that `struct node` declares.
pub record FitsEnd (protocol : ℕ) (e : Endpoint) : Type 0 where
  pub protocol_u8 : protocol < 2 ^ 8
  pub port_u16 : e.port < 2 ^ 16
  pub ip_u32 : e.ip < 2 ^ 32

-- A key is the three members side by side.
pub var-eq-sum :
    (protocol : ℕ) (e : Endpoint)
    → FitsEnd protocol e
    → var protocol e ≡ protocol * 2 ^ 48 + e.port * 2 ^ 32 + e.ip
unfolding var
var-eq-sum protocol e f =
    let a : bit_and (protocol * 2 ^ 48) protocol_mask ≡ protocol * 2 ^ 48 =
      omega (arith, bit_and-field 48 16 (protocol * 2 ^ 48)) in
    let b : bit_and (e.port * 2 ^ 32) port_mask ≡ e.port * 2 ^ 32 =
      omega (arith, bit_and-field 32 16 (e.port * 2 ^ 32)) in
    let c : bit_and e.ip ip_mask ≡ e.ip = omega (arith, bit_and-ones 32 e.ip) in
    let ab : bit_or (protocol * 2 ^ 48) (e.port * 2 ^ 32) ≡ (protocol * 2 ^ 16 + e.port) * 2 ^ 32 =
      omega (arith, bit_or-add 48 protocol (e.port * 2 ^ 32) (omega arith)) in
    ap₂ bit_or (ap₂ bit_or a b ∙ ab) c
    ∙ bit_or-add 32 (protocol * 2 ^ 16 + e.port) e.ip (omega arith)
    ∙ omega arith

-- For members of the widths that `struct node` declares, `get_protocol_from_var_lan`,
-- `get_port_from_var_lan` and `get_ip_from_var_lan` take a key apart into the protocol, port and
-- address it was made of.
pub var_parts :
    (protocol : ℕ) (e : Endpoint)
    → FitsEnd protocol e
    → let key = var protocol e in
      (get_protocol_from_var_lan key ≡ protocol)
      × (get_port_from_var_lan key ≡ e.port)
      × (get_ip_from_var_lan key ≡ e.ip)
unfolding get_protocol_from_var_lan get_port_from_var_lan get_ip_from_var_lan
var_parts protocol e f =
    let key : ℕ = var protocol e in
    (
      omega (arith, var-eq-sum protocol e f, bit_and-field 48 16 key),
      omega (arith, var-eq-sum protocol e f, bit_and-field 32 16 key),
      omega (arith, var-eq-sum protocol e f, bit_and-ones 32 key),
    )

-- For members of the widths that `struct node` declares, two keys are equal exactly when
-- protocol, port and address are.
pub var-injective :
    (p q : ℕ) (e d : Endpoint)
    → FitsEnd p e
    → FitsEnd q d
    → (var p e ≡ var q d) ↔ ((p ≡ q) × (e ≡ d))
var-injective p q e d f g = (
  λ same.
      let sums = sym (var-eq-sum p e f) ∙ same ∙ var-eq-sum q d g in
      (omega (arith, sums), ground (arith, sums)),
  λ parts. ap₂ var parts.0 parts.1,
)
