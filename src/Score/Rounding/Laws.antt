-- ===== src/Score/Rounding/Laws.antt =====
-- What `divide_round_half_away_from_zero` of core/score/rounding.py computes, for every sign.
use master_all_strings.Prelude.{
  ℕ, zero, suc, ◌+◌, ◌*◌, ◌≤◌, ◌<◌, ◌≡◌, refl, sym, ap, ◌∙◌, arith, ok, err,
}
use master_all_strings.Prelude.Int.{ℤ, pos, negsuc, neg_ℤ, nat_abs, ◌≤ℤ◌, ◌*ℤ◌, ◌-ℤ◌, nat_abs--ℤ}
use master_all_strings.Score.Errors.{not_positive}
use master_all_strings.Score.Rounding.{divide_round_half_away_from_zero}
use master_all_strings.Score.Rounding.Natural.{
  round_div, round_div_lem, round_div_bounds, round_div_zero,
}

pub divide_round_natural :
    (n d : ℕ) → 0 < d → divide_round_half_away_from_zero (pos n) (pos d) ≡ ok (pos (round_div n d))
unfolding divide_round_half_away_from_zero
divide_round_natural n d h = ground (arith, round_div_lem n d)

pub divide_round_negative :
    (n d : ℕ)
    → 0 < d
    → divide_round_half_away_from_zero (negsuc n) (pos d) ≡ ok (neg_ℤ (pos (round_div (suc n) d)))
unfolding divide_round_half_away_from_zero
divide_round_negative n d h = ground (arith, round_div_lem (suc n) d)

neg_ℤ-neg_ℤ : (a : ℤ) → neg_ℤ (neg_ℤ a) ≡ a
neg_ℤ-neg_ℤ (pos zero) = refl
neg_ℤ-neg_ℤ (pos (suc n)) = refl
neg_ℤ-neg_ℤ (negsuc n) = refl

neg-*ℤ : (q d : ℕ) → neg_ℤ (pos q) *ℤ pos d ≡ neg_ℤ (pos (q * d))
unfolding ◌*ℤ◌
neg-*ℤ zero d = ground arith
neg-*ℤ (suc q) d = refl

nat_abs-negated : (m n : ℕ) → nat_abs (neg_ℤ (pos m) -ℤ neg_ℤ (pos n)) ≡ nat_abs (pos m -ℤ pos n)
unfolding ◌-ℤ◌
nat_abs-negated zero zero = refl
nat_abs-negated zero (suc n) = ground arith
nat_abs-negated (suc m) zero = ground arith
nat_abs-negated (suc m) (suc n) = ground arith

error_of_bounds :
    (n q d : ℕ)
    → 2 * (q * d) ≤ 2 * n + d
    → 2 * n + d < 2 * (q * d) + 2 * d
    → (2 * nat_abs (pos q *ℤ pos d -ℤ pos n) ≤ d)
      × (2 * nat_abs (neg_ℤ (pos q) *ℤ pos d -ℤ neg_ℤ (pos n)) ≤ d)
unfolding ◌*ℤ◌
error_of_bounds n q d low high = (
  omega (arith, nat_abs--ℤ (q * d) n),
  rw (neg-*ℤ q d, nat_abs-negated (q * d) n) (omega (arith, nat_abs--ℤ (q * d) n)),
)

-- For a positive denominator the quotient exists and is a nearest integer: the product with the
-- denominator is within half the denominator of the numerator. Of two nearest ones it is the one away
-- from zero, and the quotient of the negated numerator is the negated quotient.
pub divide_round_nearest :
    (n : ℤ) (d : ℕ)
    → 0 < d
    → (q : ℤ) × (divide_round_half_away_from_zero n (pos d) ≡ ok q)
      × (2 * nat_abs (q *ℤ pos d -ℤ n) ≤ d)
      × (2 * (nat_abs q * d) ≤ 2 * nat_abs n + d)
      × (2 * nat_abs n + d < 2 * (nat_abs q * d) + 2 * d)
      × (divide_round_half_away_from_zero (neg_ℤ n) (pos d) ≡ ok (neg_ℤ q))
divide_round_nearest (pos zero) d h = (
  pos (round_div 0 d),
  divide_round_natural 0 d h,
  (error_of_bounds 0 (round_div 0 d) d (round_div_bounds 0 d h).0 (round_div_bounds 0 d h).1).0,
  (round_div_bounds 0 d h).0,
  (round_div_bounds 0 d h).1,
  divide_round_natural 0 d h ∙ ap ok (rw (round_div_zero d h)),
)
divide_round_nearest (pos (suc n)) d h = (
  pos (round_div (suc n) d),
  divide_round_natural (suc n) d h,
  (error_of_bounds (suc n) (round_div (suc n) d) d (round_div_bounds (suc n) d h).0
      (round_div_bounds (suc n) d h).1).0,
  (round_div_bounds (suc n) d h).0,
  (round_div_bounds (suc n) d h).1,
  divide_round_negative n d h,
)
divide_round_nearest (negsuc n) d h = (
  neg_ℤ (pos (round_div (suc n) d)),
  divide_round_negative n d h,
  (error_of_bounds (suc n) (round_div (suc n) d) d (round_div_bounds (suc n) d h).0
      (round_div_bounds (suc n) d h).1).1,
  ground (arith, round_div_bounds (suc n) d h),
  ground (arith, round_div_bounds (suc n) d h),
  divide_round_natural (suc n) d h ∙ ap ok (sym (neg_ℤ-neg_ℤ (pos (round_div (suc n) d)))),
)

-- A denominator that is not positive raises, whatever the numerator.
pub divide_round_not_positive :
    (n d : ℤ) → d ≤ℤ pos 0 → divide_round_half_away_from_zero n d ≡ err (not_positive "denominator")
unfolding divide_round_half_away_from_zero
divide_round_not_positive n d h = ground arith
