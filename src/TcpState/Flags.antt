-- ===== src/TcpState/Flags.antt =====
-- The flag tests on a `uint8_t`: masks of two flags in terms of the single flags.
use natporte.Base.{
  ℕ, zero, suc, ◌<◌, ◌≡◌, refl, sym, arith, Bool, true, false, not, ◌&&◌, ◌||◌, bit_or,
}
use natporte.TcpState.{th_fin, th_syn, th_ack, has, has_all}

all_below : ℕ → (ℕ → Bool) → Bool
all_below zero p = true
all_below (suc n) p = p n && all_below n p

all_below_at : (n : ℕ) (p : ℕ → Bool) (x : ℕ) → all_below n p ≡ true → x < n → p x ≡ true
unfolding all_below
all_below_at zero p x h lt = absurd (omega arith)
all_below_at (suc n) p x h lt = ground (arith, all_below_at n p x)

same : Bool → Bool → Bool
same true b = b
same false b = not b

eq_of_same : (a b : Bool) → same a b ≡ true → a ≡ b
unfolding same
eq_of_same true b h = sym h
eq_of_same false b h = ground arith

-- The three tests of masks, on every byte.
tests_agree : ℕ → Bool
tests_agree p =
    same (has_all p th_fin) (has p th_fin)
    && (same (has p (bit_or th_ack th_fin)) (has p th_ack || has p th_fin)
        && same (has_all p (bit_or th_syn th_ack)) (has p th_syn && has p th_ack))

tests_agree_table : all_below 256 tests_agree ≡ true
unfolding all_below tests_agree same has has_all
tests_agree_table = refl

module _ (p : ℕ) (byte : p < 256) where
  pub has_all-fin : has_all p th_fin ≡ has p th_fin
  unfolding tests_agree
  has_all-fin =
      eq_of_same (has_all p th_fin) (has p th_fin)
        (ground (arith, all_below_at 256 tests_agree p tests_agree_table byte))

  pub has-ack_fin : has p (bit_or th_ack th_fin) ≡ has p th_ack || has p th_fin
  unfolding tests_agree
  has-ack_fin =
      eq_of_same (has p (bit_or th_ack th_fin)) (has p th_ack || has p th_fin)
        (ground (arith, all_below_at 256 tests_agree p tests_agree_table byte))

  pub has_all-syn_ack : has_all p (bit_or th_syn th_ack) ≡ has p th_syn && has p th_ack
  unfolding tests_agree
  has_all-syn_ack =
      eq_of_same (has_all p (bit_or th_syn th_ack)) (has p th_syn && has p th_ack)
        (ground (arith, all_below_at 256 tests_agree p tests_agree_table byte))
