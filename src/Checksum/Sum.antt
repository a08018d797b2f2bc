-- ===== src/Checksum/Sum.antt =====
-- The sum of `checksum` without its words: a plain sum over the bytes, how a stored field enters
-- it, and that 32 bits are enough for it.
use natporte.Base.{
  ℕ, zero, suc, ◌+◌, ◌-◌, ◌*◌, ◌^◌, ◌≤◌, ◌<◌, ◌≡◌, refl, ap, ◌∙◌, Bytes, IsBytes, load16, store16,
  htons, u16, bit_or-add, bit_and-ones, bit_and, bit_or, arith,
}
use natporte.Checksum.{sum_words, fold, checksum}
use natporte.Checksum.Fold.{fold-IsFolded}

-- The bytes from `i` on as 16-bit words in network order, added up.
unfoldable pub word_sum : Bytes → ℕ → ℕ → ℕ
word_sum b i zero = 0
word_sum b i (suc zero) = b i * 256
word_sum b i (suc (suc n)) = b i * 256 + b (i + 1) + word_sum b (i + 2) n

pub word_sum-le : (b : Bytes) → IsBytes b → (i n : ℕ) → 2 * word_sum b i n ≤ 0xffff * (n + 1)
unfolding word_sum
word_sum-le b bytes i zero = omega arith
word_sum-le b bytes i (suc zero) = omega (arith, bytes i)
word_sum-le b bytes i (suc (suc n)) =
    omega (arith, bytes i, bytes (i + 1), word_sum-le b bytes (i + 2) n)

-- The `|=` of a word's low byte is a sum.
two_bytes : (hi lo : ℕ) → hi < 256 → lo < 256 → bit_or (u16 (hi * 2 ^ 8)) lo ≡ hi * 256 + lo
two_bytes hi lo h l =
    ap (λ (t : ℕ). bit_or t lo) {y = hi * 2 ^ 8} (omega arith) ∙ bit_or-add 8 hi lo l

-- Without overflow the loop adds the plain sum to what it starts from.
pub sum_words-word_sum :
    (b : Bytes)
    → IsBytes b
    → (i n sum : ℕ) → 2 * sum + 0xffff * (n + 1) < 2 ^ 33
    → sum_words b i n sum ≡ sum + word_sum b i n
unfolding sum_words word_sum
sum_words-word_sum b bytes i zero sum h = omega arith
sum_words-word_sum b bytes i (suc zero) sum h = omega (arith, bytes i)
sum_words-word_sum b bytes i (suc (suc n)) sum h =
    ap (sum_words b (i + 2) n) {y = sum + (b i * 256 + b (i + 1))}
      (omega (arith, bytes i, bytes (i + 1), two_bytes (b i) (b (i + 1))))
    ∙ sum_words-word_sum b bytes (i + 2) n (sum + (b i * 256 + b (i + 1)))
        (omega (arith, bytes i, bytes (i + 1)))
    ∙ omega arith

-- `checksum` is the complement of the folded sum.
pub checksum-word_sum :
    (b : Bytes)
    → IsBytes b
    → (i n adjust : ℕ) → n ≤ 0xffff
    → adjust ≤ 2 ^ 20
    → checksum b i n adjust ≡ 0xffff - fold (word_sum b i n + adjust)
unfolding checksum
checksum-word_sum b bytes i n adjust hn ha =
    ap (λ (t : ℕ). bit_and (2 ^ 32 - 1 - fold t) 0xffff) {y = word_sum b i n + adjust}
      (omega (arith, sum_words-word_sum b bytes i n 0 (omega arith), word_sum-le b bytes i n))
    ∙ omega (
      arith,
      bit_and-ones 16 (2 ^ 32 - 1 - fold (word_sum b i n + adjust)),
      (fold-IsFolded (word_sum b i n + adjust)).fits,
    )

-- A store outside the bytes that are summed is not seen.
word_sum-store16_outside :
    (b : Bytes) (i n f v : ℕ) → f + 1 < i → word_sum (store16 b f v) i n ≡ word_sum b i n
unfolding word_sum store16
word_sum-store16_outside b i zero f v h = refl
word_sum-store16_outside b i (suc zero) f v h = ground arith
word_sum-store16_outside b i (suc (suc n)) f v h =
    ground (arith, word_sum-store16_outside b (i + 2) n f v (omega arith))

-- A field at an even offset inside is one of the words: storing it exchanges that word.
pub word_sum-store16 :
    (b : Bytes)
    → IsBytes b
    → (i n k f v : ℕ) → f ≡ i + 2 * k
    → 2 * k + 1 < n
    → v < 2 ^ 16
    → word_sum (store16 b f v) i n + htons (load16 b f) ≡ word_sum b i n + htons v
unfolding word_sum htons load16 store16
word_sum-store16 b bytes i zero k f v e h hv = absurd (omega arith)
word_sum-store16 b bytes i (suc zero) k f v e h hv = absurd (omega arith)
word_sum-store16 b bytes i (suc (suc n)) zero f v e h hv =
    ground (arith, bytes f, bytes (f + 1), word_sum-store16_outside b (i + 2) n f v (omega arith))
word_sum-store16 b bytes i (suc (suc n)) (suc k) f v e h hv =
    ground (arith, word_sum-store16 b bytes (i + 2) n k f v (omega arith) (omega arith) hv)
