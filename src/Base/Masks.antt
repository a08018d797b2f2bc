-- ===== src/Base/Masks.antt =====
-- `&` with a contiguous mask and `|` of disjoint fields, as arithmetic on native numbers.
use Prim.Native.Nat.{
  ℕ, zero, suc, ◌+◌, ◌-◌, ◌*◌, ◌/◌, ◌%◌, ◌^◌, ◌≤◌, ◌<◌, min, max, bit_and, bit_or, digits,
  bit_and-bitwise, bit_or-bitwise,
}
use mathlib.Core.Path.{◌≡◌, refl, ◌∙◌, sym, ap}
use native.Mathlib.Nat.{pow-suc, one-le-pow, div-div-eq-div-mul, pow-succ'}
use native.Mathlib.Omega.{arith}

-- The digit recursion does not depend on its fuel, once the fuel is enough.
module _ (z : ℕ → ℕ) (f : ℕ → ℕ → ℕ) where
  digits_enough : (n m a b : ℕ) → a ≤ n → a ≤ m → digits z f n a b ≡ digits z f m a b
  digits_enough zero zero a b h k = refl
  digits_enough zero (suc m) zero b h k = refl
  digits_enough (suc n) zero zero b h k = refl
  digits_enough (suc n) (suc m) zero b h k = refl
  digits_enough zero m (suc a) b h k = absurd (omega arith)
  digits_enough (suc n) zero (suc a) b h k = absurd (omega arith)
  digits_enough (suc n) (suc m) (suc a) b h k =
      ap (λ d. d * 2 + f (suc a % 2) (b % 2))
        (digits_enough n m (suc a / 2) (b / 2) (omega arith) (omega arith))

and_digit : (a b : ℕ) → bit_and a b ≡ bit_and (a / 2) (b / 2) * 2 + min (a % 2) (b % 2)
and_digit zero b = omega (arith, bit_and-bitwise 0 b, bit_and-bitwise 0 (b / 2))
and_digit (suc a) b = omega (
  arith,
  bit_and-bitwise (suc a) b,
  bit_and-bitwise (suc a / 2) (b / 2),
  digits_enough (λ _. 0) min a (suc a / 2) (suc a / 2) (b / 2) (omega arith) (omega arith),
)

or_digit : (a b : ℕ) → bit_or a b ≡ bit_or (a / 2) (b / 2) * 2 + max (a % 2) (b % 2)
or_digit zero b = omega (arith, bit_or-bitwise 0 b, bit_or-bitwise 0 (b / 2))
or_digit (suc a) b = omega (
  arith,
  bit_or-bitwise (suc a) b,
  bit_or-bitwise (suc a / 2) (b / 2),
  digits_enough (λ y. y) max a (suc a / 2) (suc a / 2) (b / 2) (omega arith) (omega arith),
)

and_zero_below : (n a : ℕ) → a ≤ n → bit_and a 0 ≡ 0
and_zero_below zero a h = omega (arith, ap (λ (t : ℕ). bit_and t 0) {x = a} {y = 0} (omega arith))
and_zero_below (suc n) zero h = refl
and_zero_below (suc n) (suc a) h =
    omega (arith, and_digit (suc a) 0, and_zero_below n (suc a / 2) (omega arith))

pub bit_and-zero : (a : ℕ) → bit_and a 0 ≡ 0
bit_and-zero a = and_zero_below a a (omega arith)

or_zero_below : (n a : ℕ) → a ≤ n → bit_or a 0 ≡ a
or_zero_below n zero h = refl
or_zero_below zero (suc a) h = absurd (omega arith)
or_zero_below (suc n) (suc a) h =
    omega (arith, or_digit (suc a) 0, or_zero_below n (suc a / 2) (omega arith))

pub bit_or-zero : (a : ℕ) → bit_or a 0 ≡ a
bit_or-zero a = or_zero_below a a (omega arith)

double_pow : (q k : ℕ) → q * 2 ^ suc k ≡ 2 * (q * 2 ^ k)
double_pow q k = omega (arith, ap (λ (t : ℕ). q * t) (pow-suc 2 k))

-- Both operands may be shifted by one bit.
and_double : (a b : ℕ) → bit_and a (2 * b) ≡ bit_and (a / 2) b * 2
and_double a b = omega (
  arith,
  and_digit a (2 * b),
  ap (λ (t : ℕ). bit_and (a / 2) t) {x = 2 * b / 2} {y = b} (omega arith),
)

-- `(q << k) | r` is a sum when `r` fits `k` bits.
pub bit_or-add : (k q r : ℕ) → r < 2 ^ k → bit_or (q * 2 ^ k) r ≡ q * 2 ^ k + r
bit_or-add zero q r h = ground (arith, bit_or-zero q)
bit_or-add (suc k) q r h = ground (
  arith,
  or_digit (q * 2 ^ suc k) r,
  double_pow q k,
  pow-suc 2 k,
  bit_or-add k q (r / 2) (omega (arith, pow-suc 2 k)),
)

div_pow_suc : (a j : ℕ) → a / 2 / 2 ^ j ≡ a / 2 ^ suc j
div_pow_suc a j = div-div-eq-div-mul a 2 (2 ^ j) ∙ ap (λ t. a / t) (sym (pow-succ' 2 j))

-- A mask shifted by `j` bits sees the operand shifted by as many.
pub bit_and-shift : (j a m : ℕ) → bit_and a (m * 2 ^ j) ≡ bit_and (a / 2 ^ j) m * 2 ^ j
bit_and-shift zero a m = ground arith
bit_and-shift (suc j) a m = omega (
  arith,
  ap (bit_and a) (double_pow m j),
  and_double a (m * 2 ^ j),
  bit_and-shift j (a / 2) m,
  ap (λ t. bit_and t m * 2 ^ j) (div_pow_suc a j),
  double_pow (bit_and (a / 2 ^ suc j) m) j,
)

and_ones_field : (k q r : ℕ) → r < 2 ^ k → bit_and (q * 2 ^ k + r) (2 ^ k - 1) ≡ r
and_ones_field zero q r h = omega (arith, bit_and-zero (q * 1 + r))
and_ones_field (suc k) q r h = ground (
  arith,
  and_digit (q * 2 ^ suc k + r) (2 ^ suc k - 1),
  double_pow q k,
  pow-suc 2 k,
  one-le-pow k 2,
  and_ones_field k q (r / 2) (omega (arith, pow-suc 2 k)),
)

-- A mask of `k` ones is the remainder by `2 ^ k`.
pub bit_and-ones : (k a : ℕ) → bit_and a (2 ^ k - 1) ≡ a % 2 ^ k
bit_and-ones k a = ground (arith, one-le-pow k 2, and_ones_field k (a / 2 ^ k) (a % 2 ^ k))

-- `k` ones shifted by `j` select one field.
pub bit_and-field : (j k a : ℕ) → bit_and a ((2 ^ k - 1) * 2 ^ j) ≡ a / 2 ^ j % 2 ^ k * 2 ^ j
bit_and-field j k a =
    bit_and-shift j a (2 ^ k - 1) ∙ ap (λ t. t * 2 ^ j) (bit_and-ones k (a / 2 ^ j))
