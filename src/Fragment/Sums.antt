-- ===== src/Fragment/Sums.antt =====
-- src/alias.h: a checksum depends on the bytes that it sums.
use natporte.Base.{ℕ, zero, suc, ◌+◌, ◌≤◌, ◌<◌, ◌≡◌, Bytes, arith, refl}
use natporte.Checksum.{sum_words, checksum}

sum_words-same :
    (b b' : Bytes) (i n sum : ℕ)
    → ((j : ℕ) → i ≤ j → j < i + n → b' j ≡ b j)
    → sum_words b' i n sum ≡ sum_words b i n sum
unfolding sum_words
sum_words-same b b' i zero sum h = refl
sum_words-same b b' i (suc zero) sum h = rw (h i (omega arith) (omega arith))
sum_words-same b b' i (suc (suc n)) sum h =
    rw (h i (omega arith) (omega arith), h (i + 1) (omega arith) (omega arith))
      (sum_words-same b b' (i + 2) n _ (λ j k l. h j (omega arith) (omega arith)))

pub checksum-same :
    (b b' : Bytes) (i n adjust : ℕ)
    → ((j : ℕ) → i ≤ j → j < i + n → b' j ≡ b j)
    → checksum b' i n adjust ≡ checksum b i n adjust
unfolding checksum
checksum-same b b' i n adjust h = rw (sum_words-same b b' i n 0 h)
