-- ===== src/Base/Buffer.antt =====
-- The bytes from a `char*` on: a function of the offset. A store gives the bytes afterwards.
-- Multi-byte fields are loaded and stored as a little-endian host does.
use Prim.Native.Nat.{ℕ, zero, suc, ◌+◌, ◌*◌, ◌/◌, ◌%◌, ◌^◌, ◌<◌, ◌≤◌}
use mathlib.Core.Path.{◌≡◌}
use mathlib.Core.Logic.{◌≢◌, ◌⊎◌}
use native.Mathlib.Omega.{arith}
use mathlib.Core.List.{List, [], ◌∷◌}
use natporte.Base.Arrays.{get_or}
use natporte.Base.Tests.{◌==◌, if◌then◌else◌}

abbrev pub Bytes : Type 0
Bytes = ℕ → ℕ

abbrev pub IsBytes : Bytes → Type 0
IsBytes b = (i : ℕ) → b i < 256

unfoldable pub load16 : Bytes → ℕ → ℕ
load16 b i = b i + 256 * b (i + 1)

unfoldable pub load32 : Bytes → ℕ → ℕ
load32 b i = b i + 256 * b (i + 1) + 2 ^ 16 * b (i + 2) + 2 ^ 24 * b (i + 3)

unfoldable pub store8 : Bytes → ℕ → ℕ → Bytes
store8 b i v j = if j == i then v % 256 else b j

unfoldable pub store16 : Bytes → ℕ → ℕ → Bytes
unfolding store8
store16 b i v = store8 (store8 b i v) (i + 1) (v / 256)

unfoldable pub store32 : Bytes → ℕ → ℕ → Bytes
unfolding store16
store32 b i v = store16 (store16 b i v) (i + 2) (v / 2 ^ 16)

-- The two bytes are stored, and no other changes.
pub store16_outside : (b : Bytes) (i v j : ℕ) → j ≢ i → j ≢ i + 1 → store16 b i v j ≡ b j
unfolding store16
store16_outside b i v j h k = ground arith

pub load16-store16_self : (b : Bytes) (i v : ℕ) → v < 2 ^ 16 → load16 (store16 b i v) i ≡ v
unfolding load16 store16
load16-store16_self b i v h = ground arith

pub store16-IsBytes : (b : Bytes) (i v : ℕ) → IsBytes b → IsBytes (store16 b i v)
unfolding store16
store16-IsBytes b i v h j = ground (arith, h j)

pub store32-IsBytes : (b : Bytes) (i v : ℕ) → IsBytes b → IsBytes (store32 b i v)
unfolding store32
store32-IsBytes b i v h j = ground (arith, h j)

pub load16-lt : (b : Bytes) (i : ℕ) → IsBytes b → load16 b i < 2 ^ 16
unfolding load16
load16-lt b i h = omega (arith, h i, h (i + 1))

pub load32-lt : (b : Bytes) (i : ℕ) → IsBytes b → load32 b i < 2 ^ 32
unfolding load32
load32-lt b i h = omega (arith, h i, h (i + 1), h (i + 2), h (i + 3))

-- Only the four bytes of the field change.
pub store32_outside : (b : Bytes) (i v j : ℕ) → j < i ⊎ i + 3 < j → store32 b i v j ≡ b j
unfolding store32
store32_outside b i v j h = ground arith

pub load32-store32_self : (b : Bytes) (i v : ℕ) → v < 2 ^ 32 → load32 (store32 b i v) i ≡ v
unfolding load32 store32
load32-store32_self b i v h = ground arith

-- A buffer that begins with the listed bytes and is 0 after them.
abbrev pub from_list : List ℕ → Bytes
from_list l i = get_or l i 0

abbrev pub AllBytes : List ℕ → Type 0
AllBytes [] = Unit
AllBytes (x ∷ xs) = (x < 256) × AllBytes xs

pub from_list-IsBytes : (l : List ℕ) → AllBytes l → IsBytes (from_list l)
from_list-IsBytes [] h i = omega arith
from_list-IsBytes (x ∷ xs) h zero = h.0
from_list-IsBytes (x ∷ xs) h (suc i) = from_list-IsBytes xs h.1 i

-- A field is read from its own bytes only.
pub load32-same :
    (b b' : Bytes) (i : ℕ) → ((j : ℕ) → i ≤ j → j < i + 4 → b' j ≡ b j) → load32 b' i ≡ load32 b i
unfolding load32
load32-same b b' i h = omega (
  arith,
  h i (omega arith) (omega arith),
  h (i + 1) (omega arith) (omega arith),
  h (i + 2) (omega arith) (omega arith),
  h (i + 3) (omega arith) (omega arith),
)

pub load16-same :
    (b b' : Bytes) (i : ℕ) → ((j : ℕ) → i ≤ j → j < i + 2 → b' j ≡ b j) → load16 b' i ≡ load16 b i
unfolding load16
load16-same b b' i h =
    omega (arith, h i (omega arith) (omega arith), h (i + 1) (omega arith) (omega arith))

pub store8_outside : (b : Bytes) (i v j : ℕ) → j ≢ i → store8 b i v j ≡ b j
unfolding store8
store8_outside b i v j h = ground arith

pub store8-IsBytes : (b : Bytes) (i v : ℕ) → IsBytes b → IsBytes (store8 b i v)
unfolding store8
store8-IsBytes b i v h j = ground (arith, h j)

-- A field that has been moved byte by byte.
pub load32-moved :
    (b b' : Bytes) (i j : ℕ) → ((k : ℕ) → k < 4 → b' (i + k) ≡ b (j + k)) → load32 b' i ≡ load32 b j
unfolding load32
load32-moved b b' i j h =
    grind (arith, h 0 (omega arith), h 1 (omega arith), h 2 (omega arith), h 3 (omega arith))
