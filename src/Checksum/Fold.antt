-- ===== src/Checksum/Fold.antt =====
-- The carry fold of `checksum`: the sum modulo 65535 in 16 bits, and never 0 for a positive sum.
use natporte.Base.{
  ℕ, ◌+◌, ◌/◌, ◌%◌, ◌^◌, ◌≤◌, ◌<◌, ◌≡◌, refl, bit_and, bit_and-ones, arith, lt_wf, ◌↔◌,
}
use natporte.Checksum.{fold_acc, fold, fold_smaller}
use mathlib.Core.Logic.{dif_pos, dif_neg}
use native.Mathlib.Decide.{dec_lt}
use native.Mathlib.Bridge.{le_prop}
use mathlib.Core.WellFounded.{Acc}

-- What the loop returns for `sum`: it fits 16 bits, is `sum` modulo 65535, and is 0 only for 0.
pub record IsFolded (sum r : ℕ) : Type 0 where
  pub fits : r ≤ 0xffff
  pub rest : r % 65535 ≡ sum % 65535
  pub zero_iff : (r ≡ 0) ↔ (sum ≡ 0)

fold_acc-IsFolded : (sum : ℕ) (w : Acc ◌<◌ sum) → IsFolded sum (fold_acc sum w)
unfolding fold_acc
fold_acc-IsFolded sum (Acc.intro _ smaller) = elim (dec_lt 0xffff sum) [
  | yes more ↦
      let next : ℕ = sum / 2 ^ 16 + bit_and sum 0xffff in
      let rec = fold_acc-IsFolded next (smaller next (fold_smaller sum more)) in
      rw (dif_pos _ le_prop more) (record {
        fits = rec.fits;
        rest = omega (arith, bit_and-ones 16 sum, rec.rest);
        zero_iff = (λ e. omega (arith, bit_and-ones 16 sum, rec.zero_iff.0 e), λ e. omega arith);
      })
  | no small ↦
      rw (dif_neg _ small) (record { fits = omega arith; rest = refl; zero_iff = (λ e. e, λ e. e) })
]

pub fold-IsFolded : (sum : ℕ) → IsFolded sum (fold sum)
unfolding fold
fold-IsFolded sum = fold_acc-IsFolded sum (lt_wf.apply sum)
